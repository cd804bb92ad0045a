-- ===== src/Api/Usage.antt =====
-- What the health check says of the pool.
use croutond.Base.{
  ℕ, zero, suc, ◌+◌, ◌-◌, ◌≤◌, ◌≡◌, refl, ◌∙◌, sym, ap, Bool, List, [], ◌∷◌, length, count_if,
  Bool-cases, inl, inr, arith,
}
use croutond.Calls.{returned, >>=-returned, returned-injective, convert-returned, give}
use croutond.Types.{SlotStatus, empty}
use croutond.Error.{from_pool_error}
use croutond.Slot.{get_vm_status}
use croutond.Pool.{
  ProcessPool, Env, size, is_in, get_vm_slot_status, statuses_from, list_vm_slots, pool_usage,
}
use croutond.Pool.Keeps.{list_vm_slots-Keeps}
use croutond.Pool.Size.{ask-size}
use croutond.Facade.{process_pool}
use croutond.Service.{World, of_pool}
use croutond.Api.{Web, HealthResponse, health}

count_if_le :
    (test : SlotStatus → Bool) (statuses : List SlotStatus)
    → count_if test statuses ≤ length statuses
count_if_le test [] = omega arith
count_if_le test (s ∷ statuses) = elim (Bool-cases (test s)) [
  | inl h ↦ rw h (omega (arith, count_if_le test statuses))
  | inr h ↦ rw h (omega (arith, count_if_le test statuses))
]

module _ (env : Env) where
  statuses_length :
      (n slot : ℕ) (p : ProcessPool) {statuses : List SlotStatus}
      → (statuses_from env n slot p).0 ≡ returned statuses
      → length statuses ≡ n
  unfolding statuses_from
  statuses_length zero slot p {statuses} e = ap length (sym (returned-injective [] statuses e))
  statuses_length (suc n) slot p {statuses} e =
      let (s, got, step) = >>=-returned (get_vm_slot_status env slot) _ p e in
      let e' = ap (λ x. x.0) (sym step) ∙ e in
      let (rest, got', step') =
        >>=-returned (statuses_from env n (suc slot)) (λ rest. give (s ∷ rest)) _ e' in
      let whole = returned-injective (s ∷ rest) statuses (ap (λ x. x.0) (sym step') ∙ e') in
      ap length (sym whole) ∙ ap suc (statuses_length n (suc slot) _ got')

  pool_usage_counts :
      (p : ProcessPool) {usage : ℕ × ℕ}
      → (pool_usage env p).0 ≡ returned usage
      → (usage.0 + usage.1 ≡ size p) × (size (pool_usage env p).1 ≡ size p)
  unfolding pool_usage list_vm_slots
  pool_usage_counts p {usage} e =
      let (statuses, got, step) = >>=-returned (list_vm_slots env) _ p e in
      let idle = count_if (is_in empty) statuses in
      let same =
        returned-injective (length statuses - idle, idle) usage (ap (λ x. x.0) (sym step) ∙ e) in
      let all = statuses_length (size p) 0 p got in
      let few = count_if_le (is_in empty) statuses in
      let kept =
        (list_vm_slots-Keeps env (λ q. size q ≡ size p) (ask-size env (size p) get_vm_status)).at p
          refl in
      let sum : (length statuses - idle) + idle ≡ size p = omega (arith, all, few) in
      (sym (ap (λ (u : ℕ × ℕ). u.0 + u.1) same) ∙ sum, ap (λ x. size x.1) step ∙ kept)

-- The numbers of the health check agree: the slots in use and the idle ones are together the size of
-- the pool, which the check does not change.
pub health_counts :
    {R : Type 0} (env : Env) (world : World ProcessPool) (web : Web R) (p : ProcessPool)
    {r : HealthResponse}
    → (health (process_pool env) world web p).0 ≡ returned r
    → (r.pool_in_use + r.pool_idle ≡ r.pool_size) × (r.pool_size ≡ size p)
unfolding health
health_counts env world web p {r} e =
    let (usage, got, step) =
      >>=-returned (of_pool (process_pool env) world (pool_usage env)) _ p e in
    let (sum, kept) = pool_usage_counts env p (convert-returned from_pool_error _ got) in
    let same = returned-injective _ r (ap (λ x. x.0) (sym step) ∙ e) in
    (
      ap (λ x. x.pool_in_use + x.pool_idle) (sym same)
          ∙ sum
          ∙ sym kept
          ∙ ap (λ x. x.pool_size) same,
      ap (λ x. x.pool_size) (sym same) ∙ kept,
    )
