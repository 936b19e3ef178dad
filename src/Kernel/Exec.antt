-- ===== src/Kernel/Exec.antt =====
-- Commands: functions of the kernel state that return a value and the next state, or stop.
use tweaking_pintos.Prelude.{
  ℕ, suc, zero, Bool, true, false, List, [], ◌∷◌, ◌++◌, Option, none, some, ◌==◌, ◌||◌,
  if◌then◌else◌, elem,
}
use tweaking_pintos.Kernel.{Status, running, Thread, Kernel, Line, null, update}

-- Why a run stops: a failed ASSERT; a pointer to no live object; an element put on a list while it is
-- on it, where the code goes on with a corrupted list; a printf() that has to wait for the console
-- lock, where the code goes on in lock_acquire() and so in schedule(); or too little fuel for the model
-- of a loop.
pub data Fault : Type 0 where
  assertion bad_pointer list_misuse console_wait out_of_fuel : Fault

pub data Result {ℓ} (A : Type ℓ) : Type ℓ where
  ok : A → Kernel → Result A
  panic : Fault → Result A

abbrev pub M {ℓ} : Type ℓ → Type ℓ
M A = Kernel → Result A

abbrev pub pure {ℓ} : {A : Type ℓ} → A → M A
pure a k = ok a k

abbrev pub stop {ℓ} : {A : Type ℓ} → Fault → M A
stop e k = panic e

abbrev pub and_then {ℓ κ} : {A : Type ℓ} {B : Type κ} → Result A → (A → M B) → Result B
and_then (ok a k) f = f a k
and_then (panic e) f = panic e

infixl 5 ◌>>=◌ ◌>>◌
abbrev pub ◌>>=◌ {ℓ κ} : {A : Type ℓ} {B : Type κ} → M A → (A → M B) → M B
◌>>=◌ m f k = and_then (m k) f

abbrev pub ◌>>◌ {ℓ} : {B : Type ℓ} → M (Unit {0}) → M B → M B
◌>>◌ m n k = and_then (m k) (λ _. n)

abbrev pub get : M Kernel
get k = ok k k

abbrev pub put : Kernel → M (Unit {0})
put k' k = ok tt k'

-- `if` between two commands. Not an `abbrev`, so that a proof can name its parts.
unfoldable pub branch {ℓ} : {A : Type ℓ} → Bool → M A → M A → M A
branch b m n k = if b then m k else n k

-- ASSERT
abbrev pub assert : Bool → M (Unit {0})
assert true k = ok tt k
assert false k = panic assertion

abbrev pub is_running : Status → Bool
is_running running = true
is_running _ = false

abbrev pub found : Option Thread → M Thread
found none k = panic bad_pointer
found (some t) k = ok t k

-- `*p`
unfoldable pub load : ℕ → M Thread
load p k = if p == null then panic bad_pointer else found (k.mem p) k

-- `*p = t`, at a live `p`.
unfoldable pub store : ℕ → Thread → M (Unit {0})
store p t k = ok tt (record k { mem = update k.mem p (some t) })

-- list_push_back() for an element that may be on the list already, which the code never tests.
abbrev pub push_back : ℕ → List ℕ → M (List ℕ)
push_back p l k = if elem p l then panic list_misuse else ok (l ++ (p ∷ [])) k

-- Whether printf() finds the console lock free, or held by the thread that prints.
abbrev pub can_print : Kernel → Bool
can_print k = k.console_holder == null || k.console_holder == k.current

-- printf() with the console lock, which acquire_console() takes and release_console() gives back.
unfoldable pub print : Line → M (Unit {0})
print l k =
    if can_print k then ok tt (record k { console = k.console ++ (l ∷ []) }) else panic console_wait

-- malloc() of a `struct signal`; false stands for NULL.
unfoldable pub malloc : M Bool
malloc k = elim k.mallocs [ zero ↦ ok false k | suc n ↦ ok true (record k { mallocs = n }) ]

-- thread_current()
unfoldable pub thread_current : M Thread
unfolding load
thread_current = do k ← get; t ← load k.current; assert (is_running t.status); pure t
