-- ===== src/Virtqueue/Effects.antt =====
-- The effects of the virtqueue engine's functions: the queue is passed on, or the function returns
-- early with a status. `fault`, `check`, `kb2_vq_channel_fault` and the calls of the memory.
use kobox.Prelude.{
  ℕ, suc, Bool, true, false, List, ◌∷◌, Option, none, some, not, ◌==◌, if◌then◌else◌, u16,
}
use kobox.Virtqueue.{VqStatus, invalid, stale, faulted, io, Event, wrote, stored, fenced, Vq}

-- KB2_VQ_OK with what the function gives out, or another status.
pub data Outcome (A : Type 0) : Type 0 where
  done : A → Vq → Outcome A
  stop : VqStatus → Vq → Outcome A

abbrev pub M : Type 0 → Type 0
M A = Vq → Outcome A

infixl 5 ◌>>=◌ ◌>>◌
unfoldable pub ◌>>=◌ : {A B : Type 0} → M A → (A → M B) → M B
◌>>=◌ m f q = elim (m q) [ done a q' ↦ f a q' | stop status q' ↦ stop status q' ]

abbrev pub ◌>>◌ : {B : Type 0} → M (Unit {0}) → M B → M B
m >> k = m >>= λ _. k

unfoldable pub give : {A : Type 0} → A → M A
give a q = done a q

-- The queue as it stands.
unfoldable pub get : M Vq
get q = done q q

unfoldable pub modify : (Vq → Vq) → M (Unit {0})
modify f q = done tt (f q)

unfoldable pub return_status : {A : Type 0} → VqStatus → M A
return_status status q = stop status q

unfoldable pub require : Bool → VqStatus → M (Unit {0})
require true status q = done tt q
require false status q = stop status q

unfoldable pub channel_fault : Vq → Vq
channel_fault q = record q { channel = record (q.channel) { is_faulted = true } }

-- `fault(vq, io)`
unfoldable pub fault : {A : Type 0} → VqStatus → M A
unfolding channel_fault
fault status q = stop status (channel_fault q)

unfoldable pub check : ℕ → M (Unit {0})
check generation q =
    if generation == 0
    then stop invalid q
    else if not (q.channel.generation == generation)
    then stop stale q
    else if q.channel.is_faulted
    then stop faulted q
    else done tt q

-- The memory after a call, with an event where there was one.
abbrev pub called : Vq → List Event → Vq
called q log = record q { memory = record (q.memory) { calls = suc q.memory.calls; log = log } }

-- A test of what the peer wrote: where it fails the channel is faulted.
unfoldable pub fault_unless : Bool → M (Unit {0})
unfolding fault
fault_unless true q = done tt q
fault_unless false q = fault faulted q

-- A memory call that fails makes its caller return `fault(vq, 1)`.
unfoldable pub or_fault : {A : Type 0} → Option A → M A
unfolding fault
or_fault none q = fault io q
or_fault (some a) q = done a q

unfoldable pub read : ℕ → ℕ → M (List ℕ)
unfolding fault
read address size q = or_fault (q.memory.reads q.memory.calls address size) (called q q.memory.log)

unfoldable pub write : ℕ → List ℕ → M (Unit {0})
unfolding fault
write address bytes q =
    if q.memory.writes q.memory.calls address bytes
    then done tt (called q (wrote address bytes ∷ q.memory.log))
    else fault io (called q q.memory.log)

unfoldable pub load_acquire : ℕ → M ℕ
load_acquire address =
    (λ q. or_fault (q.memory.loads q.memory.calls address) (called q q.memory.log)) >>= λ value.
    give (u16 value)

unfoldable pub store_release : ℕ → ℕ → M (Unit {0})
unfolding fault
store_release address value q =
    if q.memory.stores q.memory.calls address value
    then done tt (called q (stored address value ∷ q.memory.log))
    else fault io (called q q.memory.log)

unfoldable pub fence : M (Unit {0})
fence q = done tt (record q { memory = record (q.memory) { log = fenced ∷ q.memory.log } })
