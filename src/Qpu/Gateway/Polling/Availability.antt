-- ===== src/Qpu/Gateway/Polling/Availability.antt =====
-- What the polling of the device means for the poller of jobs and for the device's own calls.
use oqtopus_engine.Prelude.{
  ℕ, Bool, true, false, Option, none, some, List, [], ◌∷◌, Outcome, ok, err, panic, ◌≡◌, refl,
  arith, ◌>>=◌, ◌||◌, str_eq, subst, ◌∙◌, if◌then◌else◌,
}
use oqtopus_engine.Core.Fault.{Fault, gateway_not_connected, unknown_device_name}
use oqtopus_engine.Core.Device.{DeviceInfo, unavailable}
use oqtopus_engine.Core.Data.{JobData, set_failure}
use oqtopus_engine.Core.Job.{Call}
use oqtopus_engine.Poller.{Tick, get_jobs}
use oqtopus_engine.Qpu.Gateway.{Agent, Services, call_device_info}
use oqtopus_engine.Qpu.Gateway.Send.{send}
use oqtopus_engine.Qpu.Gateway.Polling.{
  DeviceSetting, GatewayQpu, Answers, setup, poll, polls, unavailable_device,
}

-- A device that is not connected is unavailable.
abbrev pub IsGuarded : GatewayQpu → Type 0
IsGuarded q = q.connected ≡ false → q.current_device_info.status ≡ unavailable

poll-IsGuarded : (api : Services) (w : Answers) (q : GatewayQpu) → IsGuarded (poll api w q)
unfolding poll
poll-IsGuarded api w q = by (call_device_info api w.device w.service w.reconnects q.agent)
  where
    by :
        (r : Option DeviceInfo × Agent)
        → IsGuarded (
            let (info, a) = r in
            elim info [
              | none ↦ record q {
                agent = a;
                current_device_info = unavailable_device;
                connected = false;
              }
              | some di ↦ record q { agent = a; current_device_info = di; connected = true }
            ])
    by (none, a) h = refl
    by (some di, a) h = cc

polls-IsGuarded :
    (api : Services) (ws : List Answers) (q : GatewayQpu) → IsGuarded q → IsGuarded (polls api ws q)
unfolding polls
polls-IsGuarded api [] q h = h
polls-IsGuarded api (w ∷ ws) q h = polls-IsGuarded api ws (poll api w q) (poll-IsGuarded api w q)

abbrev IsGuardedIfSetUp : Outcome Fault GatewayQpu → Type 0
IsGuardedIfSetUp (ok q) = IsGuarded q
IsGuardedIfSetUp (err e) = Unit {0}
IsGuardedIfSetUp panic = Unit {0}

setup-IsGuarded :
    (l : Outcome Fault DeviceSetting) (a : Outcome Fault Agent) → IsGuardedIfSetUp (setup l a)
unfolding setup
setup-IsGuarded (err e) a = tt
setup-IsGuarded panic a = tt
setup-IsGuarded (ok ds) a = by (str_eq ds.device_name "wako" || str_eq ds.device_name "handai") a
  where
    by :
        (b : Bool) (a1 : Outcome Fault Agent)
        → IsGuardedIfSetUp (
            if b
            then (a1 >>= λ x. ok (record {
              agent = x;
              device_setting = ds;
              connected = false;
              current_device_info = unavailable_device;
            }))
            else err (unknown_device_name ds.device_name))
    by true (ok x) = λ h. refl
    by true (err e) = tt
    by true panic = tt
    by false a1 = tt

-- After the set-up and any rounds of polling: while the gateway is not connected, the poller hands over no job,
-- whatever the cloud answers, and a job that is sent all the same fails with that error.
pub unconnected_idle :
    {J : Type 0} (api : Services) (l : Outcome Fault DeviceSetting) (a : Outcome Fault Agent)
    (q0 : GatewayQpu) (ws : List Answers) (t : Tick J) (now : ℕ) (call : JobData → Call JobData)
    (jd : JobData)
    → setup l a ≡ ok q0
    → (polls api ws q0).connected ≡ false
    → t.device_status ≡ (polls api ws q0).current_device_info.status
    → ((get_jobs t).0 ≡ [])
      × (send (polls api ws q0).connected now call jd
          ≡ Call.failed gateway_not_connected (set_failure now gateway_not_connected jd))
unfolding get_jobs send
unconnected_idle api l a q0 ws t now call jd h c s =
    let down = polls-IsGuarded api ws q0 (subst IsGuardedIfSetUp h (setup-IsGuarded l a)) c in
    let no_device : t.device_status ≡ unavailable = s ∙ down in (ground arith, rw c refl)
