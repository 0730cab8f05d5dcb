-- ===== src/Sidecar/Service/Chain.antt =====
-- Chains of handlers in general.
use service_mesh.Base.{◌≡◌, refl, List, [], ◌∷◌, ◌++◌, ap}
use service_mesh.Sidecar.Context.{ConnContext}
use service_mesh.Sidecar.World.{World, NextFunc, Handler}
use service_mesh.Sidecar.Service.{dispatch}

-- A chain that is put together of two chains runs the first, with the second, and what comes
-- behind it, for its `next`.
pub dispatch-append :
    (xs ys : List Handler) (ctx : ConnContext) (next : NextFunc) (w : World)
    → dispatch (xs ++ ys) ctx next w ≡ dispatch xs ctx (λ c v. dispatch ys c next v) w
unfolding dispatch
dispatch-append [] ys ctx next w = refl
dispatch-append (x ∷ xs) ys ctx next w =
    ap (λ (k : NextFunc). x ctx k w) (λ i c v. dispatch-append xs ys c next v i)
