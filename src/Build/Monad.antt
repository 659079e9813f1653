-- ===== src/Build/Monad.antt =====
-- The shape of every builder: it changes the context, and either fails (the C++ returns false or
-- sets `ok = false` and breaks) or goes on with a value. A failed builder keeps what it appended.
use x87sidecar.Common.{ℕ, ℤ, pos, negsuc, Option, none, some}
use x87sidecar.Ir.{Op, Payload}
use x87sidecar.Ir.Context.{Context, resolve, append_node, new_node}

abbrev pub Builder : Type 0 → Type 0
Builder A = Context → Context × Option A

abbrev pub bind_result : {A B : Type 0} → Context × Option A → (A → Builder B) → Context × Option B
bind_result (c, none) f = (c, none)
bind_result (c, some a) f = f a c

infixl 5 ◌>>=◌ ◌>>◌
abbrev pub ◌>>=◌ : {A B : Type 0} → Builder A → (A → Builder B) → Builder B
◌>>=◌ m f c = bind_result (m c) f

abbrev pub ◌>>◌ : {B : Type 0} → Builder (Unit {0}) → Builder B → Builder B
m >> k = m >>= λ _. k

abbrev pub pure : {A : Type 0} → A → Builder A
pure a c = (c, some a)

abbrev pub fail : {A : Type 0} → Builder A
fail c = (c, none)

abbrev pub modify : (Context → Context) → Builder (Unit {0})
modify f c = (f c, some tt)

abbrev pub or_fail : {A : Type 0} → Option A → Builder A
or_fail none c = (c, none)
or_fail (some a) c = (c, some a)

-- `if (id < 0) return false;`
abbrev pub checked : Context × ℤ → Context × Option ℕ
checked (c, pos i) = (c, some i)
checked (c, negsuc _) = (c, none)

-- resolve, then the check of its result.
unfoldable pub resolve_id : ℕ → Builder ℕ
resolve_id d c = checked (resolve d c)

-- add_node with the union filled in, then the check of its result.
unfoldable pub add_node : Op → ℤ → ℤ → ℤ → Payload → Builder ℕ
add_node op in0 in1 in2 p c = checked (append_node (new_node op in0 in1 in2 p) c)

abbrev pub both_ids : ℤ → Context × ℤ → Context × Option (ℕ × ℕ)
both_ids (pos i) (c, pos j) = (c, some (i, j))
both_ids (pos i) (c, negsuc _) = (c, none)
both_ids (negsuc _) (c, _) = (c, none)

-- Both depths are resolved before either result is checked.
abbrev pub checked_both : Context × ℤ → (Context → Context × ℤ) → Context × Option (ℕ × ℕ)
checked_both (c, a) next = both_ids a (next c)

unfoldable pub resolve_ids : ℕ → ℕ → Builder (ℕ × ℕ)
resolve_ids d e c = checked_both (resolve d c) (resolve e)
