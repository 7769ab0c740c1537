-- ===== src/Execution/Fields.antt =====
-- Fields between ampersands, each a key and a value. Percent and plus signs are not decoded.
use mathlib.Core.List.{append_assoc, append-nil}
use frog_quant.Prelude.{
  ℕ, suc, ◌≡◌, refl, sym, ◌∙◌, ap, Bool, not, ◌&&◌, true, false, none, some, List, [], ◌∷◌, ◌++◌,
  Text, map, All-append, ◌==◌, arith, All, drop, length,
}
use frog_quant.Strings.{before}
use frog_quant.Strings.Search.{before-append}
use frog_quant.Strings.Split.{split, Lacks, split-last, split-append}

abbrev pub Field : Type 0
Field = Text × Text

abbrev is_equals : ℕ → Bool
is_equals c = c == b'='

unfoldable pub read_field : Text → Field
unfolding before
read_field s = elim (before is_equals s) [ none ↦ (s, []) | some k ↦ (k, drop (suc (length k)) s) ]

-- A splitter of queries that knows nothing of the order.
unfoldable pub parse_query : Text → List Field
unfolding split read_field
parse_query s = map read_field (split b'&' s)

-- The fields as they are written, one after another.
unfoldable pub encode_rest : List Field → Text
encode_rest [] = []
encode_rest ((k, v) ∷ fs) = b'&' ∷ (k ++ b'=' ∷ (v ++ encode_rest fs))

unfoldable pub encode : Field → List Field → Text
unfolding encode_rest
encode (k, v) fs = k ++ b'=' ∷ (v ++ encode_rest fs)

-- A key without ampersand and equals sign, and a value without ampersand.
pub record IsPlain (f : Field) : Type 0 where
  pub key : Lacks b'&' f.0
  pub key_end : Lacks b'=' f.0
  pub value : Lacks b'&' f.1

drop-append_suc : (k : Text) (c : ℕ) (v : Text) → drop (suc (length k)) (k ++ c ∷ v) ≡ v
drop-append_suc [] c v = refl
drop-append_suc (b ∷ k) c v = drop-append_suc k c v

read_field-text : (f : Field) → IsPlain f → read_field (f.0 ++ b'=' ∷ f.1) ≡ f
unfolding read_field
read_field-text (k, v) h =
    ground (arith, before-append is_equals k b'=' v h.key_end refl, drop-append_suc k b'=' v)

Lacks-field : (f : Field) → IsPlain f → Lacks b'&' (f.0 ++ b'=' ∷ f.1)
Lacks-field f h = All-append (λ b. (b == b'&') ≡ false) f.0 (b'=' ∷ f.1) h.key (refl, h.value)

pub parse_query-encode :
    (f : Field) (fs : List Field) → IsPlain f → All IsPlain fs → parse_query (encode f fs) ≡ f ∷ fs
unfolding parse_query encode
parse_query-encode f [] h hs =
    ap (λ v. parse_query (f.0 ++ b'=' ∷ v)) (append-nil f.1)
    ∙ ap (map read_field) (split-last b'&' (f.0 ++ b'=' ∷ f.1) (Lacks-field f h))
    ∙ ap (λ x. x ∷ []) (read_field-text f h)
parse_query-encode f (g ∷ fs) h hs =
    ap parse_query (sym (append_assoc f.0 (b'=' ∷ f.1) (b'&' ∷ encode g fs)))
    ∙ ap (map read_field) (split-append b'&' (f.0 ++ b'=' ∷ f.1) (encode g fs) (Lacks-field f h))
    ∙ ap (λ x. x ∷ parse_query (encode g fs)) (read_field-text f h)
    ∙ ap (λ xs. f ∷ xs) (parse_query-encode g fs hs.0 hs.1)

abbrev pub is_plain : Text → Bool
is_plain [] = true
is_plain (c ∷ s) = not (c == b'&') && (not (c == b'=') && is_plain s)

Lacks-is_plain : (s : Text) → is_plain s ≡ true → Lacks b'&' s × Lacks b'=' s
Lacks-is_plain [] h = (tt, tt)
Lacks-is_plain (c ∷ s) h = ground (arith, Lacks-is_plain s)

-- A field whose key is a literal.
pub literal : (k v : Text) → is_plain k ≡ true → Lacks b'&' v → IsPlain (k, v)
literal k v h p = record {
  key = (Lacks-is_plain k h).0;
  key_end = (Lacks-is_plain k h).1;
  value = p;
}
