-- ===== src/Witness/ToyNames.antt =====
-- A path and the path of the file that writeFileAtomic writes first are different texts.
use Prim.Native.String.append
use Prim.Native.String.{◌++◌ as str_append, [] as []ₛ, ◌∷◌ as ◌∷ₛ◌}
use mini_database.Prelude.{
  ◌≡◌, ◌≢◌, inl, inr, sym, ap, ◌∙◌, false, String, str_eq, str_eq_iff, arith, Bool-cases,
}

tail : String → String
tail []ₛ = []ₛ
tail (c ∷ₛ s) = s

append-ne_self : (s : String) → str_append s ".tmp" ≢ s
unfolding tail
append-ne_self []ₛ e = ground (arith, (str_eq_iff (str_append "" ".tmp") "").1 e)
append-ne_self (c ∷ₛ s) e = append-ne_self s (sym (ap tail (append.cons c s ".tmp")) ∙ ap tail e)

pub tmp-other : (path : String) → str_eq (str_append path ".tmp") path ≡ false
tmp-other path = elim (Bool-cases (str_eq (str_append path ".tmp") path)) [
  | inl same ↦ absurd (append-ne_self path ((str_eq_iff (str_append path ".tmp") path).0 same))
  | inr other ↦ other
]
