-- ===== src/Worker/Turns.antt =====
-- A worker serves its queues in turn (rediq/src/server/worker.rs).
use rediq.Prelude.{
  ℕ, zero, suc, ◌+◌, ◌-◌, ◌%◌, ◌^◌, ◌<◌, ◌≤◌, String, ◌≡◌, refl, ap, sym, ◌∙◌, Option, List, length,
  get_elem?, arith,
}
use native.Mathlib.Nat.{mod-lt, mod-add-mod, add-mod_right, mod-eq_of_lt}
use native.Mathlib.Decide.{dec_lt}
use rediq.Worker.{next_queue}

-- The queue of the k-th round from now on.
abbrev pub turn : List String → ℕ → ℕ → Option String
turn queues index zero = (next_queue queues index).0
turn queues index (suc k) = turn queues (next_queue queues index).1 k

turn-eq-get_elem? :
    (queues : List String) (k index : ℕ)
    → index + k < 2 ^ 64
    → turn queues index k ≡ get_elem? queues ((index + k) % length queues)
unfolding next_queue
turn-eq-get_elem? queues zero index h =
    let e : index % 2 ^ 64 ≡ index = omega arith in
    let z : index + 0 ≡ index = omega arith in rw e (rw z refl)
turn-eq-get_elem? queues (suc k) index h =
    let e : (index + 1) % 2 ^ 64 ≡ index + 1 = omega arith in
    let z : index + 1 + k ≡ index + suc k = omega arith in
    rw e (turn-eq-get_elem? queues k (index + 1) (omega arith) ∙ rw z refl)

reaching : (n index j : ℕ) → j < n → (k : ℕ) × (k < n) × ((index + k) % n ≡ j)
reaching n index j h =
    let r = index % n in
    let low : r < n = mod-lt index (omega arith) in
    elim (dec_lt j r) [
      | yes p ↦
          let k = j + n - r in
          let e : r + k ≡ j + n = omega arith in
          (
            k,
            omega arith,
            sym (mod-add-mod index n k) ∙ ap (λ x. x % n) e ∙ add-mod_right j n ∙ mod-eq_of_lt h,
          )
      | no p ↦
          let k = j - r in
          let e : r + k ≡ j = omega arith in
          (k, omega arith, sym (mod-add-mod index n k) ∙ ap (λ x. x % n) e ∙ mod-eq_of_lt h)
    ]

-- Of as many rounds in turn as a worker has queues, each of its queues has one, while the counter
-- of rounds stays within 64 bits.
pub every_queue_served :
    (queues : List String) (index j : ℕ)
    → j < length queues
    → index + length queues ≤ 2 ^ 64
    → (k : ℕ) × (k < length queues) × (turn queues index k ≡ get_elem? queues j)
every_queue_served queues index j h b =
    let (k, l, e) = reaching (length queues) index j h in
    (k, l, turn-eq-get_elem? queues k index (omega arith) ∙ ap (get_elem? queues) e)
