-- ===== src/Print/Described.antt =====
-- src/print.cpp `printImageDesc`: what a reader finds behind the headings of the descriptions.
use dpcpp_trace.Prelude.{
  ℕ, ◌%◌, ◌≡◌, refl, ap, ◌∙◌, inl, inr, Bool, true, false, List, [], ◌∷◌, ◌++◌, arith, ◌==◌,
  if◌then◌else◌, Bool-cases, Bytes, length, drop, All, All-append, codes, starts_with,
}
use dpcpp_trace.Record.Binaries.{OffloadEntry, Property, PropertySet, DeviceBinary, Formats}
use dpcpp_trace.Print.Image.{
  PropertyTypes, format_line, type_lines, property_lines, property_set_lines, entry_lines,
  image_lines,
}

-- The headings of which each description has one.
pub data Heading : Type 0 where
  image : Heading
  target : Heading
  compile : Heading
  link : Heading

abbrev pub heading : Heading → Bytes
heading image = codes "Image desc: "
heading target = codes "Device target: "
heading compile = codes "Compile options: "
heading link = codes "Link options: "

-- What stands behind it, of a binary whose description lies at `path`.
abbrev pub content : Heading → Bytes → DeviceBinary → Bytes
content image path binary = path
content target path binary = binary.device_target_spec
content compile path binary = binary.compile_options
content link path binary = binary.link_options

-- The texts behind a heading, in the order of the lines.
unfoldable pub behind : Heading → List Bytes → List Bytes
behind h [] = []
behind h (l ∷ lines) =
    let rest = behind h lines in
    if starts_with (heading h) l then drop (length (heading h)) l ∷ rest else rest

-- A line without this heading.
abbrev IsPlain : Heading → Bytes → Type 0
IsPlain h l = starts_with (heading h) l ≡ false

indented : (h : Heading) (l : Bytes) → IsPlain h (b' ' ∷ l)
unfolding starts_with
indented image l = refl
indented target l = refl
indented compile l = refl
indented link l = refl

All-if :
    (h : Heading) (b : Bool) (xs ys : List Bytes)
    → All (IsPlain h) xs
    → All (IsPlain h) ys
    → All (IsPlain h) (if b then xs else ys)
All-if h true xs ys p q = p
All-if h false xs ys p q = q

pub behind-append :
    (h : Heading) (xs ys : List Bytes) → behind h (xs ++ ys) ≡ behind h xs ++ behind h ys
unfolding behind
behind-append h [] ys = refl
behind-append h (l ∷ xs) ys = elim (Bool-cases (starts_with (heading h) l)) [
  | inl e ↦ rw e (ap (λ t. drop (length (heading h)) l ∷ t) (behind-append h xs ys))
  | inr e ↦ rw e (behind-append h xs ys)
]

behind-plain : (h : Heading) (xs : List Bytes) → All (IsPlain h) xs → behind h xs ≡ []
unfolding behind
behind-plain h [] p = refl
behind-plain h (l ∷ xs) (p, ps) = rw p (behind-plain h xs ps)

skip : (h : Heading) (xs ys : List Bytes) → All (IsPlain h) xs → behind h (xs ++ ys) ≡ behind h ys
skip h xs ys p = behind-append h xs ys ∙ rw (behind-plain h xs p) refl

module _ (to_string : ℕ → Bytes) (formats : Formats) (types : PropertyTypes) where
  format_line-IsPlain :
      (h : Heading) (f : ℕ) → All (IsPlain h) (format_line to_string formats types f)
  unfolding format_line starts_with
  format_line-IsPlain image f = ground arith
  format_line-IsPlain target f = ground arith
  format_line-IsPlain compile f = ground arith
  format_line-IsPlain link f = ground arith

  type_lines-IsPlain :
      (h : Heading) (p : Property) → All (IsPlain h) (type_lines to_string formats types p)
  unfolding type_lines
  type_lines-IsPlain h p =
      All-if h (p.type == types.unknown_type) _ _ (indented h _, tt)
        (All-if h (p.type == types.uint32) _ _ (indented h _, tt)
          (All-if h (p.type == types.byte_array) _ _ (indented h _, tt)
            (All-if h (p.type == types.string) _ _ (indented h _, (indented h _, tt)) tt)))

  property_lines-IsPlain :
      (h : Heading) (ps : List Property)
      → All (IsPlain h) (property_lines to_string formats types ps)
  unfolding property_lines
  property_lines-IsPlain h [] = tt
  property_lines-IsPlain h (p ∷ ps) = (
    indented h _,
    (
      indented h _,
      All-append (IsPlain h) _ _ (type_lines-IsPlain h p) (property_lines-IsPlain h ps),
    ),
  )

  property_set_lines-IsPlain :
      (h : Heading) (ss : List PropertySet)
      → All (IsPlain h) (property_set_lines to_string formats types ss)
  unfolding property_set_lines
  property_set_lines-IsPlain h [] = tt
  property_set_lines-IsPlain h (s ∷ ss) = (
    indented h _,
    (
      indented h _,
      All-append (IsPlain h) _ _ (property_lines-IsPlain h s.properties)
          (property_set_lines-IsPlain h ss),
    ),
  )

  entry_lines-IsPlain :
      (h : Heading) (es : List OffloadEntry)
      → All (IsPlain h) (entry_lines to_string formats types es)
  unfolding entry_lines
  entry_lines-IsPlain h [] = tt
  entry_lines-IsPlain h (e ∷ es) =
      (indented h _, (indented h _, (indented h _, entry_lines-IsPlain h es)))

  -- The lines behind the four headings.
  after_link : DeviceBinary → List Bytes
  after_link b =
      (codes "Offload entries [" ++ to_string (length b.offload_entries) ++ codes "]:")
      ∷ (entry_lines to_string formats types b.offload_entries
          ++ (codes "Property sets [" ++ to_string (length b.property_sets) ++ codes "]:")
            ∷ (property_set_lines to_string formats types b.property_sets ++ [] ∷ []))

  behind-after_link : (h : Heading) (b : DeviceBinary) → behind h (after_link b) ≡ []
  unfolding after_link behind starts_with
  behind-after_link image b =
      skip image _ _ (entry_lines-IsPlain image b.offload_entries)
      ∙ skip image _ ([] ∷ []) (property_set_lines-IsPlain image b.property_sets)
  behind-after_link target b =
      skip target _ _ (entry_lines-IsPlain target b.offload_entries)
      ∙ skip target _ ([] ∷ []) (property_set_lines-IsPlain target b.property_sets)
  behind-after_link compile b =
      skip compile _ _ (entry_lines-IsPlain compile b.offload_entries)
      ∙ skip compile _ ([] ∷ []) (property_set_lines-IsPlain compile b.property_sets)
  behind-after_link link b =
      skip link _ _ (entry_lines-IsPlain link b.offload_entries)
      ∙ skip link _ ([] ∷ []) (property_set_lines-IsPlain link b.property_sets)

  -- One text for each heading.
  pub behind-image_lines :
      (h : Heading) (path : Bytes) (b : DeviceBinary)
      → behind h (image_lines to_string formats types path b) ≡ content h path b ∷ []
  unfolding image_lines behind starts_with after_link format_line
  behind-image_lines image path b =
      ap (λ t. path ∷ t)
        (skip image _ _ (format_line-IsPlain image (b.format % 256)) ∙ behind-after_link image b)
  behind-image_lines target path b =
      skip target _ _ (format_line-IsPlain target (b.format % 256))
      ∙ ap (λ t. b.device_target_spec ∷ t) (behind-after_link target b)
  behind-image_lines compile path b =
      skip compile _ _ (format_line-IsPlain compile (b.format % 256))
      ∙ ap (λ t. b.compile_options ∷ t) (behind-after_link compile b)
  behind-image_lines link path b =
      skip link _ _ (format_line-IsPlain link (b.format % 256))
      ∙ ap (λ t. b.link_options ∷ t) (behind-after_link link b)
