-- ===== src/Mapper/Keys.antt =====
-- The keys by which `evaluateBatch` tells tuples apart.
use ai_devsecops_command_cen.Common.{sym, ◌∙◌}
use ai_devsecops_command_cen.Mapper.Engine.{tuple_key}
use ai_devsecops_command_cen.Common.{String, ◌≡◌, refl, ap, Bool, true, not, ◌&&◌, arith, eqb}
use Prim.Native.Char.{Char, code}
use Prim.Native.String
use text.Mathlib.TextLemmas.{
  head-eq_of_cons-eq, tail-eq_of_cons-eq, nil-append, cons-append, append_cancel_left,
}

abbrev pub no_colon : String → Bool
no_colon String.[] = true
no_colon (String.◌∷◌ c s) = not (eqb (code c) b':') && no_colon s

nil_key : (v : String) → tuple_key "" v ≡ String.◌∷◌ ":" (String.◌++◌ ":" v)
nil_key v = nil-append (String.◌++◌ "::" v) ∙ cons-append ":" ":" v

cons_key : (x : Char) (c v : String) → tuple_key (String.◌∷◌ x c) v ≡ String.◌∷◌ x (tuple_key c v)
cons_key x c v = cons-append x c (String.◌++◌ "::" v)

-- The second colon of the key of an empty id.
colon_first : (x : Char) (c v w : String) → tuple_key "" v ≡ tuple_key (String.◌∷◌ x c) w → x ≡ ":"
colon_first x c v w e = sym (head-eq_of_cons-eq (sym (nil_key v) ∙ e ∙ cons_key x c w))

not_colon : (x : Char) (c : String) → no_colon (String.◌∷◌ x c) ≡ true → x ≡ ":" → ⊥
not_colon x c h e = let same = ap code e in ground arith

-- Without a colon in the control ids, a key belongs to one control and one vulnerability.
pub tuple_key-injective :
    (c d v w : String)
    → no_colon c ≡ true
    → no_colon d ≡ true
    → tuple_key c v ≡ tuple_key d w
    → (c ≡ d) × (v ≡ w)
tuple_key-injective String.[] String.[] v w h k e = (
  refl,
  append_cancel_left "::" v w
      (sym (nil-append (String.◌++◌ "::" v)) ∙ e ∙ nil-append (String.◌++◌ "::" w)),
)
tuple_key-injective String.[] (String.◌∷◌ x d) v w h k e =
    absurd (not_colon x d k (colon_first x d v w e))
tuple_key-injective (String.◌∷◌ x c) String.[] v w h k e =
    absurd (not_colon x c h (colon_first x c w v (sym e)))
tuple_key-injective (String.◌∷◌ x c) (String.◌∷◌ y d) v w h k e =
    let same = sym (cons_key x c v) ∙ e ∙ cons_key y d w in
    let (cs, vs) =
      tuple_key-injective c d v w (ground arith) (ground arith) (tail-eq_of_cons-eq same) in
    (λ i. String.◌∷◌ (head-eq_of_cons-eq same i) (cs i), vs)
