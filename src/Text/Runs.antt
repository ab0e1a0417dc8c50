-- ===== src/Text/Runs.antt =====
-- Steps that may panic, and do not.
use opengnk.Prelude.{
  ℕ, ◌≤◌, Bool, true, false, Option, none, some, ◌≡◌, refl, arith, ◌>>=◌, if◌then◌else◌, length,
  take, drop, le→leb,
}
use opengnk.Text.{Bytes, slice}

pub slice_total :
    (text : Bytes) (a b : ℕ)
    → a ≤ b
    → b ≤ length text
    → slice text a b ≡ some (drop a (take b text))
unfolding slice
slice_total text a b h k = ground (arith, le→leb a b h, le→leb b (length text) k)

-- A step that may panic, and does not.
abbrev pub Runs : {A : Type 0} → Option A → Type 0
Runs {A} o = (s : A) × (o ≡ some s)

pub slice-Runs : (s : Bytes) (a b : ℕ) → a ≤ b → b ≤ length s → Runs (slice s a b)
slice-Runs s a b h k = (drop a (take b s), slice_total s a b h k)

pub Runs-cases :
    {A B : Type 0} (o : Option B) (a : Option A) (f : B → Option A)
    → Runs a
    → ((i : B) → o ≡ some i → Runs (f i))
    → Runs (elim o [ none ↦ a | some i ↦ f i ])
Runs-cases none a f h k = h
Runs-cases (some i) a f h k = k i refl

pub Runs-bind :
    {A B : Type 0} (o : Option B) (f : B → Option A)
    → Runs o
    → ((s : B) → Runs (f s))
    → Runs (o >>= f)
Runs-bind o f (s, e) k = let (t, e') = k s in (t, rw (e, ◌>>=◌) e')

pub Runs-if :
    {A : Type 0} (b : Bool) (t e : Option A)
    → (b ≡ true → Runs t)
    → (b ≡ false → Runs e)
    → Runs (if b then t else e)
Runs-if true t e h k = h refl
Runs-if false t e h k = k refl
