-- ===== src/Schedules/Occurrences.antt =====
-- The arithmetic of a claim: which occurrence it takes, and where the schedule goes on.
use Prim.Native.Nat.{◌/◌}
use native.Mathlib.Nat.{div-add-mod, mod-lt, mul_comm}
use skill2workflow.Prelude.{
  ℕ, suc, ◌+◌, ◌-◌, ◌*◌, ◌<◌, ◌≤◌, String, ◌≡◌, refl, sym, ap, ◌∙◌, false, not, ◌||◌, Option, none,
  some, arith, inl, inr, Bool-cases, Option-cases, ltb, if◌then◌else◌,
}
use skill2workflow.Dict.{Dict, lookup, has, insert, lookup-insert_self}
use skill2workflow.Result.{ok, ◌>>=◌, >>=-eq-ok, ok-injective}
use skill2workflow.Schedules.Db.{
  Schedule, Dispatch, SchedulerDb, is_claimed, insert_dispatch, shift,
}
use skill2workflow.Schedules.Claim.{
  Claimer, Claim, due_count, claim_status, coalesced, new_dispatch, record_claim, claim_schedule,
  claim_one,
}

shift-ok : (last at seconds t : ℕ) → shift last at seconds ≡ ok t → t ≡ at + seconds
unfolding shift
shift-ok last at seconds t h = ground arith

times-pred : (q i : ℕ) → (suc q - 1) * i ≡ i * q
times-pred q i = let e : suc q - 1 ≡ q = omega arith in rw e (mul_comm q i)

times-suc : (q i : ℕ) → suc q * i ≡ i + i * q
times-suc q i = omega (arith, mul_comm q i)

span-bounds :
    (now next i : ℕ)
    → 0 < i
    → next ≤ now
    → (next + (suc ((now - next) / i) - 1) * i ≤ now) × (now < next + suc ((now - next) / i) * i)
span-bounds now next i positive due =
    let q = (now - next) / i in
    let whole = div-add-mod (now - next) i in
    let rest = mod-lt (now - next) {m = i} positive in
    (omega (arith, times-pred q i, whole), omega (arith, times-suc q i, whole, rest))

-- With a positive interval the count of due occurrences spans the time that has passed.
due_count-bounds :
    (now : ℕ) (s : Schedule)
    → 0 < s.interval_seconds
    → s.next_run_at ≤ now
    → (s.next_run_at + (due_count now s - 1) * s.interval_seconds ≤ now)
      × (now < s.next_run_at + due_count now s * s.interval_seconds)
unfolding due_count
due_count-bounds now s positive due = span-bounds now s.next_run_at s.interval_seconds positive due

suc-pred : (q : ℕ) → suc (suc q - 1) ≡ suc q
suc-pred q = omega arith

-- A claim's occurrences: the one it takes, if it takes one, and those it passes over.
unfoldable pub occurrences_of : Dispatch → ℕ
unfolding is_claimed
occurrences_of d =
    if is_claimed d.status then suc d.coalesced_occurrences else d.coalesced_occurrences

new-occurrences :
    (c : Claimer) (id : String) (s : Schedule) (at : ℕ)
    → occurrences_of (new_dispatch c id s at) ≡ due_count c.now s
unfolding occurrences_of new_dispatch coalesced claim_status is_claimed due_count
new-occurrences c id s at =
    elim (Bool-cases (is_claimed (claim_status s.missed_run_policy (due_count c.now s)))) [
      | inl p ↦
          rw (p, new_dispatch, coalesced, due_count)
            (suc-pred ((c.now - s.next_run_at) / s.interval_seconds))
      | inr p ↦ rw (p, new_dispatch, coalesced, due_count) refl
    ]

insert_dispatch-some :
    (key : String) (d : Dispatch) (m m' : Dict Dispatch)
    → insert_dispatch key d m ≡ some m'
    → (has key m ≡ false) × (m' ≡ insert key d m)
unfolding insert_dispatch
insert_dispatch-some key d m m' h = ground arith

-- What a claim that was recorded says, and what it leaves behind.
record Recorded (c : Claimer) (id : String) (s : Schedule) (at : ℕ) (future : ℕ) (db : SchedulerDb)
    (after : SchedulerDb) (key : String) (d : Dispatch) : Type 0 where
  pub named : key ≡ c.dispatch_id id at
  pub made : d ≡ new_dispatch c id s at
  pub fresh : has key db.dispatches ≡ false
  pub left : after ≡ record db {
    dispatches = insert key d db.dispatches;
    schedules =
        insert id (record s { next_run_at = future; last_scheduled_for = some at }) db.schedules;
  }

abbrev claim_key : Option Claim → String
claim_key none = ""
claim_key (some (key, d)) = key

abbrev claim_dispatch : Dispatch → Option Claim → Dispatch
claim_dispatch other none = other
claim_dispatch other (some (key, d)) = d

no_claim {ℓ} : {A : Type ℓ} {claim : Claim} → none ≡ some claim → A
no_claim h = cc

-- The latest due occurrence and the first one after it are an interval apart.
one_more :
    (now : ℕ) (s : Schedule)
    → due_count now s * s.interval_seconds
      ≡ (due_count now s - 1) * s.interval_seconds + s.interval_seconds
unfolding due_count
one_more now s =
    let q = (now - s.next_run_at) / s.interval_seconds in
    omega (arith, times-pred q s.interval_seconds, times-suc q s.interval_seconds)

record-Recorded :
    (c : Claimer) (id : String) (s : Schedule) (at future : ℕ) (db after : SchedulerDb)
    (key : String) (d : Dispatch)
    → record_claim c id s at future db ≡ (some (key, d), after)
    → Recorded c id s at future db after key d
unfolding record_claim
record-Recorded c id s at future db after key d h =
    let new = new_dispatch c id s at in
    elim (Option-cases (insert_dispatch (c.dispatch_id id at) new db.dispatches)) [
      | inl p ↦
          (let wrong : (none, db) ≡ (some (key, d), after) = rw (p, record_claim) at h in
            no_claim (ap (λ r. r.0) wrong))
      | inr (m, p) ↦
          let then_db = record db {
            dispatches = m;
            schedules =
                insert id (record s { next_run_at = future; last_scheduled_for = some at })
                  db.schedules;
          } in
          let pair : (some (c.dispatch_id id at, new), then_db) ≡ (some (key, d), after) =
            rw (p, record_claim) at h in
          let (absent, e) = insert_dispatch-some (c.dispatch_id id at) new db.dispatches m p in
          let same_key : c.dispatch_id id at ≡ key = ap (λ r. claim_key r.0) pair in
          let same_new : new ≡ d = ap (λ r. claim_dispatch new r.0) pair in
          let same_db : then_db ≡ after = ap (λ r. r.1) pair in
          record {
            named = sym same_key;
            made = sym same_new;
            fresh = rw same_key at absent;
            left = sym same_db ∙ rw (e, same_key, same_new) refl;
          }
    ]

progress :
    (c : Claimer) (id : String) (s : Schedule) (db after : SchedulerDb) (key : String)
    (d : Dispatch)
    → claim_schedule c id s db ≡ ok (some (key, d), after)
    → (s.next_run_at ≤ c.now)
      × ((at : ℕ) × (future : ℕ) × (at
            ≡ s.next_run_at + (due_count c.now s - 1) * s.interval_seconds)
          × (future ≡ s.next_run_at + due_count c.now s * s.interval_seconds)
          × Recorded c id s at future db after key d)
unfolding claim_schedule
progress c id s db after key d h = elim (Bool-cases (not s.enabled || ltb c.now s.next_run_at)) [
  | inl p ↦
      (let wrong : ok (none, db) ≡ ok (some (key, d), after) = rw (p, claim_schedule) at h in
        no_claim (ap (λ r. r.0) (ok-injective wrong)))
  | inr p ↦
      let due = due_count c.now s in
      let first = shift c.last_datetime s.next_run_at ((due - 1) * s.interval_seconds) in
      let second = shift c.last_datetime s.next_run_at (due * s.interval_seconds) in
      let chain : (first >>= λ at. second >>= λ future. ok (record_claim c id s at future db))
          ≡ ok (some (key, d), after) =
        rw (p, claim_schedule) at h in
      let (at, q, r) = >>=-eq-ok first _ chain in
      let (future, u, v) = >>=-eq-ok second _ r in
      (
        ground arith,
        (
          at,
          future,
          shift-ok c.last_datetime s.next_run_at ((due - 1) * s.interval_seconds) at q,
          shift-ok c.last_datetime s.next_run_at (due * s.interval_seconds) future u,
          record-Recorded c id s at future db after key d (ok-injective v),
        ),
      )
]

-- A claim from a schedule with a positive interval takes an occurrence that is not later than now and
-- not earlier than the schedule's next one. The schedule goes on one interval after it, later than now,
-- and no occurrence is lost: between the old and the new next run lie as many as the dispatch takes or
-- passes over.
pub claim_one_lem :
    (c : Claimer) (id : String) (s : Schedule) (db after : SchedulerDb) (key : String)
    (d : Dispatch)
    → lookup id db.schedules ≡ some s
    → 0 < s.interval_seconds
    → claim_one c id db ≡ ok (some (key, d), after)
    → (s.next_run_at ≤ d.scheduled_for)
      × (d.scheduled_for ≤ c.now)
      × (has key db.dispatches ≡ false)
      × (lookup key after.dispatches ≡ some d)
      × ((next : Schedule) × (lookup id after.schedules ≡ some next)
          × (c.now < next.next_run_at)
          × (next.next_run_at ≡ d.scheduled_for + s.interval_seconds)
          × (next.next_run_at ≡ s.next_run_at + occurrences_of d * s.interval_seconds))
unfolding claim_one
claim_one_lem c id s db after key d found positive h =
    let (due, (at, future, p, q, r)) =
      progress c id s db after key d (rw (found, claim_one) at h) in
    let (low, high) = due_count-bounds c.now s positive due in
    let at_is : d.scheduled_for ≡ at = rw r.made refl in
    let next = record s { next_run_at = future; last_scheduled_for = some at } in
    let counted : occurrences_of d ≡ due_count c.now s = rw r.made (new-occurrences c id s at) in
    (
      omega (arith, at_is, p),
      omega (arith, at_is, p, low),
      r.fresh,
      rw r.left (lookup-insert_self key d db.dispatches),
      (
        next,
        rw r.left (lookup-insert_self id next db.schedules),
        omega (arith, q, high),
        omega (arith, at_is, p, q, one_more c.now s),
        rw counted q,
      ),
    )
