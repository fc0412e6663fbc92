-- ===== src/Trading/Handlers/Deploys.antt =====
-- services/execution-gateway/internal/trading/handlers.go: the handlers that deploy a straddle.
use complete_dashboard.Prelude.{
  ℕ, ◌≡◌, ◌≢◌, arith, refl, not, Option, none, some, Result, ok, err, str_eq, Bool-cases, inl, inr,
}
use complete_dashboard.Prelude.Float.{Float64}
use complete_dashboard.Trading.Models.{DeployStraddleRequest, DeployStraddleResponse}
use complete_dashboard.Trading.Build.{World, Gateway}
use complete_dashboard.Trading.Deploy.{DeployError, deploy_straddle}
use complete_dashboard.Trading.Deploy.Outcome.{DeployEnds, deploy_straddle-DeployEnds}
use complete_dashboard.Trading.Deploy.Plan.{Services, plan_straddle}
use complete_dashboard.Trading.Handlers.{
  HttpRequest, RequestJson, Body, deployed, deploy_failed, Reply, posted, deploy_reply, deploy_read,
  read_as, config_deploy, custom_deploy, handle_deploy, handle_config_build, handle_custom_sell,
}

module _ (fl : Float64) (world : World fl.F) (json : RequestJson fl.F)
    (services : Services fl.F) where
  -- What an answer tells of the deployment of a request that was read: how it ended, for the plan
  -- of that request.
  abbrev pub EndsFor :
      Gateway fl.F
      → Option DeployStraddleRequest
      → Result DeployError (DeployStraddleResponse fl.F) × Gateway fl.F
      → Type 0
  EndsFor gw none outcome = ⊥
  EndsFor gw (some req) outcome =
      DeployEnds fl world gw (plan_straddle fl services (world.clock gw.calls) req) outcome

  -- What an answer to a request tells of the gateway before and after it.
  abbrev pub TellsOf :
      Gateway fl.F → Option DeployStraddleRequest → ℕ → Gateway fl.F → Body fl.F → Type 0
  TellsOf gw req status gw' (deployed resp) = (status ≡ 200) × EndsFor gw req (ok resp, gw')
  TellsOf gw req status gw' (deploy_failed e) = (status ≢ 200) × EndsFor gw req (err e, gw')
  TellsOf gw req status gw' body = (status ≢ 200) × (gw' ≡ gw)

  abbrev pub IsTrue :
      Gateway fl.F → Option DeployStraddleRequest → Reply fl.F × Gateway fl.F → Type 0
  IsTrue gw req (r, gw') = TellsOf gw req r.status gw' r.body

  deploy_reply-IsTrue :
      (failure : ℕ) (gw : Gateway fl.F) (req : DeployStraddleRequest)
      (result : Result DeployError (DeployStraddleResponse fl.F) × Gateway fl.F)
      → failure ≢ 200
      → EndsFor gw (some req) result
      → IsTrue gw (some req) (deploy_reply fl world json failure result)
  deploy_reply-IsTrue failure gw req (ok resp, gw') f h = (refl, h)
  deploy_reply-IsTrue failure gw req (err e, gw') f h = (f, h)

  deploy_read-IsTrue :
      (failure : ℕ) (req : Option DeployStraddleRequest) (gw : Gateway fl.F)
      → failure ≢ 200
      → IsTrue gw req (deploy_read fl world json failure services req gw)
  deploy_read-IsTrue failure none gw f = (omega arith, refl)
  deploy_read-IsTrue failure (some req) gw f =
      deploy_reply-IsTrue failure gw req (deploy_straddle fl world services req gw) f
        (deploy_straddle-DeployEnds fl world services req gw)

  posted-IsTrue :
      (failure : ℕ) (r : HttpRequest) (req : Option DeployStraddleRequest) (gw : Gateway fl.F)
      → failure ≢ 200
      → IsTrue gw req (posted fl world json failure services r req gw)
  posted-IsTrue failure r req gw f = elim (Bool-cases (not (str_eq r.method "POST"))) [
    | inl other ↦ rw other (omega arith, refl)
    | inr post ↦ rw post (deploy_read-IsTrue failure req gw f)
  ]

  -- Each of the three requests to deploy a straddle is answered 200 exactly when it returns a
  -- response, and then the trade of the plan of its request is stored as active, which the response
  -- reports, with a runtime. An answer with an error tells what the deployment left: a failed build
  -- has stored the trade of that plan with the status of the failure, one whose chunking fails has
  -- called no broker, and a deployment that is refused, a request that is no POST and one whose body
  -- is not read leave the gateway as it was.
  pub deploys-IsTrue :
      (r : HttpRequest) (gw : Gateway fl.F)
      → IsTrue gw (json.read_deploy r.body) (handle_deploy fl world json services r gw)
        × IsTrue gw
            (read_as config_deploy (json.read_config r.body))
            (handle_config_build fl world json services r gw)
        × IsTrue gw
            (read_as custom_deploy (json.read_custom r.body))
            (handle_custom_sell fl world json services r gw)
  unfolding handle_deploy handle_config_build handle_custom_sell
  deploys-IsTrue r gw = (
    posted-IsTrue 400 r (json.read_deploy r.body) gw (omega arith),
    posted-IsTrue 500 r (read_as config_deploy (json.read_config r.body)) gw (omega arith),
    posted-IsTrue 500 r (read_as custom_deploy (json.read_custom r.body)) gw (omega arith),
  )
