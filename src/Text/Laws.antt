-- ===== src/Text/Laws.antt =====
-- What the operations on texts do with parts that are known.
use Prim.Native.String.{[], ◌∷◌}
use text.Mathlib.TextLemmas.{nil-append, cons-append}
use sta_generation_service.Prelude.{
  String, true, false, some, code, ◌==◌, ==_iff, ◌≡◌, refl, ap, arith, Bool-cases, inl, inr,
}
use sta_generation_service.Text.{◌<>◌, strip_prefix, starts_with, contains, replace, before_first}

pub strip_prefix-append : (p rest : String) → strip_prefix p (p <> rest) ≡ some rest
unfolding strip_prefix
strip_prefix-append [] rest = rw nil-append
strip_prefix-append (c ∷ p) rest =
    rw (cons-append, strip_prefix, (==_iff (code c) (code c)).1 refl) (strip_prefix-append p rest)

pub starts_with-append : (p rest : String) → starts_with p (p <> rest) ≡ true
unfolding starts_with
starts_with-append p rest = rw (strip_prefix-append p rest)

pub replace-absent : (old new s : String) → contains old s ≡ false → replace old new s ≡ s
unfolding replace contains
replace-absent old new [] h = refl
replace-absent old new (c ∷ s) h =
    let ih = replace-absent old new s in
    let head : starts_with old (c ∷ s) ≡ false = ground arith in
    let tail : contains old s ≡ false = ground arith in rw head (ap (λ t. c ∷ t) (ih tail))

-- No question mark.
abbrev pub NoMark : String → Type 0
NoMark [] = Unit {0}
NoMark (c ∷ s) = ((code c == b'?') ≡ false) × NoMark s

pub before_first-NoMark : (s : String) → NoMark (before_first b'?' s)
unfolding before_first
before_first-NoMark [] = tt
before_first-NoMark (c ∷ s) = elim (Bool-cases (code c == b'?')) [
  | inl mark ↦ rw mark tt
  | inr other ↦ rw other (other, before_first-NoMark s)
]

pub before_first-mark : (s rest : String) → NoMark s → before_first b'?' (s <> ("?" ∷ rest)) ≡ s
unfolding before_first
before_first-mark [] rest h = rw nil-append
before_first-mark (c ∷ s) rest (head, tail) =
    rw (cons-append, before_first, head) (ap (λ t. c ∷ t) (before_first-mark s rest tail))
