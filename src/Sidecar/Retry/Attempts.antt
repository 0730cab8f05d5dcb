-- ===== src/Sidecar/Retry/Attempts.antt =====
-- How many attempts the retry middleware makes, and with what it ends.
use Prim.Native.Nat.{max}
use service_mesh.Base.{
  ℕ, zero, suc, ◌+◌, ◌-◌, ◌≤◌, ◌≡◌, refl, arith, String, true, false, none, some, leb, Bool-cases,
  ap, ◌∙◌, inl, inr,
}
use service_mesh.Sidecar.Errors.{is_establish_error}
use service_mesh.Sidecar.Context.{GoContext, ConnContext, get_string}
use service_mesh.Sidecar.World.{World, Reply, NextFunc, inc_retry}
use service_mesh.Sidecar.Retry.{
  RetryMiddleware, back_off, after_attempt, retry_from, retry_handle, wait_time, backoff_duration,
  done_first, done_at,
}

-- The number of attempts that a state has seen, as a `next` counts them that adds one for each
-- call, whatever else happens; counting a retry and waiting leave it alone.
pub record Counts (next : NextFunc) (calls : World → ℕ) : Type 0 where
  pub each_call : (ctx : ConnContext) (w : World) → calls (next ctx w).2 ≡ calls w + 1
  pub on_retry : (service : String) (w : World) → calls (inc_retry service w) ≡ calls w
  pub on_wait : (now : ℕ) (w : World) → calls (record w { clock = now }) ≡ calls w

module _ (m : RetryMiddleware) (next : NextFunc) (calls : World → ℕ) (c : Counts next calls) where
  back_off-calls :
      (attempt k n : ℕ) (again : ConnContext → World → Reply) (ctx : ConnContext) (w : World)
      → ((x : ConnContext) (v : World)
          → (calls v ≤ calls (again x v).2) × (calls (again x v).2 ≤ calls v + n))
      → calls w ≡ k
      → (k ≤ calls (back_off m attempt again ctx w).2)
        × (calls (back_off m attempt again ctx w).2 ≤ k + n)
  unfolding back_off
  back_off-calls attempt k n again ctx w bound e =
      let counted : World = inc_retry (get_string ctx "service") w in
      let wait : ℕ = wait_time (backoff_duration m attempt) in
      ground (
        arith,
        c.on_retry (get_string ctx "service") w,
        c.on_wait (done_at ctx.context counted.clock) counted,
        c.on_wait (counted.clock + wait) counted,
        bound ctx (record counted { clock = counted.clock + wait }),
      )

  after_attempt-calls :
      (attempt k n : ℕ) (again : ConnContext → World → Reply) (r : Reply)
      → ((x : ConnContext) (v : World)
          → (calls v ≤ calls (again x v).2) × (calls (again x v).2 ≤ calls v + n))
      → calls r.2 ≡ k
      → (k ≤ calls (after_attempt m attempt again r).2)
        × (calls (after_attempt m attempt again r).2 ≤ k + n)
  unfolding after_attempt
  after_attempt-calls attempt k n again (none, ctx, w) bound e = ground arith
  after_attempt-calls attempt k n again (some err, ctx, w) bound e =
      ground (arith, back_off-calls attempt k n again ctx w bound)

  retry_from-calls :
      (left attempt : ℕ) (ctx : ConnContext) (w : World)
      → (calls w + 1 ≤ calls (retry_from m next left attempt ctx w).2)
        × (calls (retry_from m next left attempt ctx w).2 ≤ calls w + 1 + left)
  unfolding retry_from
  retry_from-calls zero attempt ctx w = ground (arith, c.each_call ctx w)
  retry_from-calls (suc left) attempt ctx w = ground (
    arith,
    c.each_call ctx w,
    after_attempt-calls attempt (calls w + 1) (left + 1) (retry_from m next left (attempt + 1))
        (next ctx w) (λ x v. ground (arith, retry_from-calls left (attempt + 1) x v)),
  )

  -- The handler calls `next` at least once, and at most as often as it is configured to, where
  -- fewer than one attempt counts as one.
  pub retry_handle-calls :
      (ctx : ConnContext) (w : World)
      → (calls w + 1 ≤ calls (retry_handle m ctx next w).2)
        × (calls (retry_handle m ctx next w).2 ≤ calls w + max 1 m.attempts)
  unfolding retry_handle
  retry_handle-calls ctx w =
      ground (arith, c.each_call ctx w, retry_from-calls (m.attempts - 1) 1 ctx w)

  after_establish :
      (attempt : ℕ) (again : ConnContext → World → Reply) (r : Reply)
      → is_establish_error r.0 ≡ true
      → after_attempt m attempt again r ≡ back_off m attempt again r.1 r.2
  unfolding after_attempt is_establish_error
  after_establish attempt again (none, ctx, w) h = cc
  after_establish attempt again (some err, ctx, w) h = rw h

  back_off_never :
      (attempt : ℕ) (again : ConnContext → World → Reply) (ctx : ConnContext) (w : World)
      → ctx.context.deadline ≡ none
      → back_off m attempt again ctx w
        ≡ again ctx (record (inc_retry (get_string ctx "service") w) {
          clock =
              (inc_retry (get_string ctx "service") w).clock
              + wait_time (backoff_duration m attempt);
        })
  unfolding back_off done_first
  back_off_never attempt again ctx w h = rw h

  retry_from_exhausts :
      ((ctx : ConnContext) (w : World)
        → (is_establish_error (next ctx w).0 ≡ true) × ((next ctx w).1.context ≡ ctx.context))
      → (left attempt : ℕ) (ctx : ConnContext) (w : World) → ctx.context.deadline ≡ none
      → calls (retry_from m next left attempt ctx w).2 ≡ calls w + 1 + left
  unfolding retry_from
  retry_from_exhausts fails zero attempt ctx w never = ground (arith, c.each_call ctx w)
  retry_from_exhausts fails (suc left) attempt ctx w never =
      let r : Reply = next ctx w in
      let unbounded : r.1.context.deadline ≡ none =
        ap (λ (g : GoContext). g.deadline) (fails ctx w).1 ∙ never in
      let again : ConnContext → World → Reply = retry_from m next left (attempt + 1) in
      let counted : World = inc_retry (get_string r.1 "service") r.2 in
      let now : ℕ = counted.clock + wait_time (backoff_duration m attempt) in
      rw
        (
          after_establish attempt again r (fails ctx w).0,
          back_off_never attempt again r.1 r.2 unbounded,
        )
        (omega (
          arith,
          retry_from_exhausts fails left (attempt + 1) r.1 (record counted { clock = now })
              unbounded,
          c.on_wait now counted,
          c.on_retry (get_string r.1 "service") r.2,
          c.each_call ctx w,
        ))

  -- Where every attempt fails to establish the connection and keeps the context, and the context
  -- never expires, the handler makes exactly the configured number of attempts, where fewer than
  -- one counts as one.
  pub retry_handle_exhausts :
      ((ctx : ConnContext) (w : World)
        → (is_establish_error (next ctx w).0 ≡ true) × ((next ctx w).1.context ≡ ctx.context))
      → (ctx : ConnContext) (w : World) → ctx.context.deadline ≡ none
      → calls (retry_handle m ctx next w).2 ≡ calls w + max 1 m.attempts
  unfolding retry_handle
  retry_handle_exhausts fails ctx w never =
      ground (arith, c.each_call ctx w, retry_from_exhausts fails (m.attempts - 1) 1 ctx w never)

after_pass :
    (m : RetryMiddleware) (attempt : ℕ) (again : ConnContext → World → Reply) (r : Reply)
    → is_establish_error r.0 ≡ false
    → after_attempt m attempt again r ≡ r
unfolding after_attempt
after_pass m attempt again (none, ctx, w) h = refl
after_pass m attempt again (some err, ctx, w) h = rw h

retry_from_passes :
    (m : RetryMiddleware) (next : NextFunc) (left attempt : ℕ) (ctx : ConnContext) (w : World)
    → is_establish_error (next ctx w).0 ≡ false
    → retry_from m next left attempt ctx w ≡ next ctx w
unfolding retry_from
retry_from_passes m next zero attempt ctx w h = refl
retry_from_passes m next (suc left) attempt ctx w h =
    after_pass m attempt (retry_from m next left (attempt + 1)) (next ctx w) h

-- A first answer that is a success, or an error that is no failure to establish the connection,
-- is passed on as it is, with no further attempt.
pub retry_handle_passes :
    (m : RetryMiddleware) (next : NextFunc) (ctx : ConnContext) (w : World)
    → is_establish_error (next ctx w).0 ≡ false
    → retry_handle m ctx next w ≡ next ctx w
unfolding retry_handle
retry_handle_passes m next ctx w h = elim (Bool-cases (leb m.attempts 1)) [
  | inl single ↦ rw single
  | inr several ↦ rw several (retry_from_passes m next (m.attempts - 1) 1 ctx w h)
]
