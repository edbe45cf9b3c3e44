-- ===== src/Config/Encoding.antt =====
-- `isCompressionAcceptEncodingValid` of config/config.go: whether an `Accept-Encoding` header covers
-- a compression. Qualities are floats, a parameter.
pub mod Best
mod Tests
use blackbox_exporter_with_g.Common.{
  ℕ, Bool, true, false, ◌||◌, Option, none, some, List, [], ◌∷◌, map, drop, length, if◌then◌else◌,
  ◌==◌, ℕ_eq,
}
use blackbox_exporter_with_g.Common.Text.{Bytes, bytes_eq, codes, has_prefix, trim_space}
use blackbox_exporter_with_g.Common.Net.{split_last}
use blackbox_exporter_with_g.Common.Float.{Floats}

-- `strings.Split` at a byte: the first part, and the parts after it.
abbrev split_parts : ℕ → Bytes → Bytes × List Bytes
split_parts sep [] = ([], [])
split_parts sep (c ∷ s) =
    let (part, parts) = split_parts sep s in
    if c == sep then ([], part ∷ parts) else (c ∷ part, parts)

abbrev split : ℕ → Bytes → List Bytes
split sep s = let (part, parts) = split_parts sep s in part ∷ parts

-- `strings.TrimPrefix`
abbrev trim_prefix : Bytes → Bytes → Bytes
trim_prefix p s = if has_prefix s p then drop (length p) s else s

module _ (floats : Floats) where
  open floats use {F, zero, one, lt, parse32, to_thousandths}

  -- `encodingQuality`
  pub record EncodingQuality : Type 0 where
    pub encoding : Bytes
    pub quality : F

  abbrev pub parse_quality : Bytes → F
  parse_quality s = elim (parse32 s) [ none ↦ zero | some q ↦ to_thousandths q ]

  -- One part of the header, up to a comma.
  abbrev pub parse_part : Bytes → EncodingQuality
  parse_part part = elim (split_last b';' part) [
    | none ↦ record { encoding = trim_space part; quality = one }
    | some (name, q) ↦ record {
      encoding = trim_space name;
      quality = parse_quality (trim_prefix (codes "q=") (trim_space q));
    }
  ]

  -- `sort.SliceStable` by falling quality: a stable insertion sort.
  pub insert : EncodingQuality → List EncodingQuality → List EncodingQuality
  insert e [] = e ∷ []
  insert e (x ∷ xs) =
      let rest = insert e xs in if lt e.quality x.quality then x ∷ rest else e ∷ x ∷ xs

  pub sort : List EncodingQuality → List EncodingQuality
  unfolding insert
  sort [] = []
  sort (e ∷ es) = insert e (sort es)

  abbrev pub covers : Bytes → EncodingQuality → Bool
  covers compression e = compression == e.encoding || e.encoding == codes "*"

  -- The loop over the sorted encodings.
  pub first_covering : Bytes → List EncodingQuality → Bool
  first_covering compression [] = false
  first_covering compression (e ∷ es) =
      let rest = first_covering compression es in
      if covers compression e then lt zero e.quality else rest

  unfoldable pub is_compression_accept_encoding_valid : Bytes → Bytes → Bool
  unfolding sort first_covering
  is_compression_accept_encoding_valid compression accept_encoding =
      if compression == [] || accept_encoding == []
      then true
      else first_covering compression (sort (map parse_part (split b',' accept_encoding)))
