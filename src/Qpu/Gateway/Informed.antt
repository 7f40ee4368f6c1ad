-- ===== src/Qpu/Gateway/Informed.antt =====
-- Which requests `callDeviceAPIOnChange` makes, and what it marks as sent.
use oqtopus_engine.Prelude.{
  Bool, true, false, Option, none, some, List, [], ◌++◌, ◌≡◌, refl, sym, ◌⊎◌, inl, inr, All, ◌∷◌,
  if◌then◌else◌, ap, ◌∙◌, subst, ℕ,
}
use oqtopus_engine.Core.Device.{DeviceInfo, DeviceStatus, available, unavailable, queue_paused}
use oqtopus_engine.Qpu.Gateway.{
  Agent, ApiStatus, api_available, api_unavailable, Request, Services, has_status_changed,
  has_device_info_changed, has_device_changed, call_device_api_on_change, attempt, update_device,
  update_device_info, update_device_status, patch, patch_device, patch_device_info,
  patch_device_status, to_device_device_status_update_status,
}
use mathlib.Core.List.{append-nil}
use oqtopus_engine.Qpu.Gateway.Difference.{
  SameInfo, SameStatus, SameQubits, Differs, status_decided, device_decided, info_decided,
}

-- The API's status for a status.
pub data Says : DeviceStatus → ApiStatus → Type 0 where
  says_available : Says available api_available
  says_unavailable : Says unavailable api_unavailable
  says_paused : Says queue_paused api_unavailable

abbrev pub AnyAccepted : Services → List Request → Type 0
AnyAccepted api [] = ⊥
AnyAccepted api (r ∷ rs) = (api.accepts r ≡ true) ⊎ AnyAccepted api rs

-- When each update makes which request.
abbrev pub TellsStatus : DeviceInfo → Option DeviceInfo → List Request → Type 0
TellsStatus new old rs =
    (Differs SameStatus old new
      × (st : ApiStatus) × Says new.status st
      × (rs ≡ patch_device_status st ∷ []))
    ⊎ ((¬ Differs SameStatus old new) × (rs ≡ []))

abbrev pub TellsInfo : Services → DeviceInfo → Option DeviceInfo → List Request → Type 0
TellsInfo api new old rs =
    (Differs SameInfo old new
      × (t : ℕ) × (api.parse_time new.calibrated_at ≡ some t)
      × (rs ≡ patch_device_info new.device_info_spec_json t ∷ []))
    ⊎ (((¬ Differs SameInfo old new) ⊎ (api.parse_time new.calibrated_at ≡ none)) × (rs ≡ []))

abbrev pub TellsQubits : DeviceInfo → Option DeviceInfo → List Request → Type 0
TellsQubits new old rs =
    (Differs SameQubits old new × (rs ≡ patch_device new.max_qubits ∷ []))
    ⊎ ((¬ Differs SameQubits old new) × (rs ≡ []))

-- The call that took the agent from `a` to `b`.
pub record Informed (api : Services) (new : DeviceInfo) (a b : Agent) : Type 0 where
  pub status : List Request
  pub info : List Request
  pub device : List Request
  pub logged : b.requests ≡ a.requests ++ status ++ info ++ device
  pub status_told : TellsStatus new a.last_device_info status
  pub info_told : TellsInfo api new a.last_device_info info
  pub device_told : TellsQubits new a.last_device_info device
  pub result :
      (AnyAccepted api (status ++ info ++ device) × (b.last_device_info ≡ some new))
      ⊎ (All (λ r. api.accepts r ≡ false) (status ++ info ++ device)
          × (b.last_device_info ≡ a.last_device_info))

-- The mark after these requests, from the mark before them.
abbrev marked : Services → List Request → Bool → Bool
marked api [] u = u
marked api (r ∷ rs) u = marked api rs (if api.accepts r then true else u)

marked-append :
    (api : Services) (xs ys : List Request) (u : Bool)
    → marked api (xs ++ ys) u ≡ marked api ys (marked api xs u)
marked-append api [] ys u = refl
marked-append api (r ∷ xs) ys u = marked-append api xs ys (if api.accepts r then true else u)

-- A mark that is set stays set.
stays_marked : (api : Services) (rs : List Request) → marked api rs true ≡ true
stays_marked api [] = refl
stays_marked api (r ∷ rs) = by (api.accepts r) (stays_marked api rs)
  where
    by : (b : Bool) → marked api rs true ≡ true → marked api rs (if b then true else true) ≡ true
    by true h = h
    by false h = h

marked-cases :
    (api : Services) (rs : List Request)
    → ((marked api rs false ≡ true) × AnyAccepted api rs)
      ⊎ ((marked api rs false ≡ false) × All (λ r. api.accepts r ≡ false) rs)
marked-cases api [] = inr (refl, tt)
marked-cases api (r ∷ rs) = by (api.accepts r) refl (marked-cases api rs)
  where
    by :
        (b : Bool)
        → api.accepts r ≡ b
        → ((marked api rs false ≡ true) × AnyAccepted api rs)
          ⊎ ((marked api rs false ≡ false) × All (λ r. api.accepts r ≡ false) rs)
        → ((marked api rs (if b then true else false) ≡ true)
            × ((api.accepts r ≡ true) ⊎ AnyAccepted api rs))
          ⊎ ((marked api rs (if b then true else false) ≡ false)
              × ((api.accepts r ≡ false) × All (λ r. api.accepts r ≡ false) rs))
    by true e h = inl (stays_marked api rs, inl e)
    by false e (inl (m, h)) = inl (m, inr h)
    by false e (inr (m, h)) = inr (m, (e, h))

-- The agent after these requests.
abbrev asked : Agent → List Request → Agent
asked a rs = record a { requests = a.requests ++ rs }

asked-nil : (a : Agent) → asked a [] ≡ a
asked-nil a = ap (λ (l : List Request). record a { requests = l }) (append-nil a.requests)

-- An attempt that made these requests.
abbrev Attempted : Services → Bool → (Agent → Bool × Agent) → List Request → Type 0
Attempted api changed update rs =
    (u : Bool) (a : Agent) → attempt changed update (u, a) ≡ (marked api rs u, asked a rs)

module _ (api : Services) (new : DeviceInfo) (old : Option DeviceInfo) where
  skipped : (update : Agent → Bool × Agent) → Attempted api false update []
  skipped update u a = ap (λ (x : Agent). (u, x)) (sym (asked-nil a))

  says : (st : DeviceStatus) → Says st (to_device_device_status_update_status st)
  unfolding to_device_device_status_update_status
  says available = says_available
  says unavailable = says_unavailable
  says queue_paused = says_paused

  status_attempt :
      (rs : List Request) × Attempted api
        (has_status_changed old (some new))
        (update_device_status api new.status)
        rs
      × TellsStatus new old rs
  unfolding update_device_status patch
  status_attempt = elim (status_decided old new) [
    | inl (e, d) ↦
        let st = to_device_device_status_update_status new.status in
        (patch_device_status st ∷ [], (λ u a. rw e refl), inl (d, st, says new.status, refl))
    | inr (e, d) ↦
        ([], (λ u a. rw e (skipped (update_device_status api new.status) u a)), inr (d, refl))
  ]

  device_attempt :
      (rs : List Request) × Attempted api
        (has_device_changed old (some new))
        (update_device api new)
        rs
      × TellsQubits new old rs
  unfolding update_device patch
  device_attempt = elim (device_decided old new) [
    | inl (e, d) ↦ (patch_device new.max_qubits ∷ [], (λ u a. rw e refl), inl (d, refl))
    | inr (e, d) ↦ ([], (λ u a. rw e (skipped (update_device api new) u a)), inr (d, refl))
  ]

  -- A time that cannot be read makes no request.
  unread :
      (e : api.parse_time new.calibrated_at ≡ none)
      → Attempted api true (update_device_info api new) []
  unfolding update_device_info
  unread e u a = rw (e, update_device_info) (ap (λ (x : Agent). (u, x)) (sym (asked-nil a)))

  read :
      (t : ℕ)
      → api.parse_time new.calibrated_at ≡ some t
      → Attempted api true
          (update_device_info api new)
          (patch_device_info new.device_info_spec_json t ∷ [])
  unfolding update_device_info patch
  read t e u a = rw (e, update_device_info) refl

  info_attempt :
      (rs : List Request) × Attempted api
        (has_device_info_changed old (some new))
        (update_device_info api new)
        rs
      × TellsInfo api new old rs
  info_attempt = elim (info_decided old new) [
    | inl (e, d) ↦ timed e d (api.parse_time new.calibrated_at) refl
    | inr (e, d) ↦ ([], (λ u a. rw e (skipped (update_device_info api new) u a)), inr (inl d, refl))
  ]
    where
      timed :
          has_device_info_changed old (some new) ≡ true
          → Differs SameInfo old new
          → (o : Option ℕ) → api.parse_time new.calibrated_at ≡ o
          → (rs : List Request) × Attempted api
              (has_device_info_changed old (some new))
              (update_device_info api new)
              rs
            × TellsInfo api new old rs
      timed e d (some t) q = (
        patch_device_info new.device_info_spec_json t ∷ [],
        (λ u a. rw e (read t q u a)),
        inl (d, t, q, refl),
      )
      timed e d none q = ([], (λ u a. rw e (unread q u a)), inr (inr q, refl))

-- The end of the call: the mark decides what was sent last.
abbrev close : DeviceInfo → Bool × Agent → Agent
close new (u, b) = if u then record b { last_device_info = some new } else b

-- `callDeviceAPIOnChange` tells the status if nothing was sent yet or the last status differs, the information if one of
-- its six fields differs and the time of the calibration can be read, and the number of qubits if that differs, in
-- this order and nothing else; a paused device is told as unavailable. If one of these requests is accepted, the
-- device as it now is counts as sent, and otherwise what was sent last stays.
pub call_device_api_on_change-Informed :
    (api : Services) (new : DeviceInfo) (a : Agent)
    → Informed api new a (call_device_api_on_change api new a)
unfolding call_device_api_on_change
call_device_api_on_change-Informed api new a =
    let old = a.last_device_info in
    let (s, e1, k1) = status_attempt api new old in
    let (i, e2, k2) = info_attempt api new old in
    let (d, e3, k3) = device_attempt api new old in
    let m1 = marked api s false in
    let m2 = marked api i m1 in
    let whole : attempt (has_device_changed old (some new)) (update_device api new) (
          attempt (has_device_info_changed old (some new)) (update_device_info api new) (
            attempt (has_status_changed old (some new)) (update_device_status api new.status)
              (false, a)))
        ≡ (marked api d m2, asked (asked (asked a s) i) d) =
      ap (attempt (has_device_changed old (some new)) (update_device api new)) (
        ap (attempt (has_device_info_changed old (some new)) (update_device_info api new))
          (e1 false a)
        ∙ e2 m1 (asked a s))
      ∙ e3 m2 (asked (asked a s) i) in
    let mark : marked api (s ++ i ++ d) false ≡ marked api d m2 =
      marked-append api (s ++ i) d false ∙ ap (marked api d) (marked-append api s i false) in
    subst (λ (p : Bool × Agent). Informed api new a (close new p)) (sym whole)
      (by s i d k1 k2 k3 (marked api d m2) mark (marked-cases api (s ++ i ++ d)))
  where
    by :
        (s i d : List Request)
        → TellsStatus new a.last_device_info s
        → TellsInfo api new a.last_device_info i
        → TellsQubits new a.last_device_info d
        → (u : Bool) → marked api (s ++ i ++ d) false ≡ u
        → ((marked api (s ++ i ++ d) false ≡ true) × AnyAccepted api (s ++ i ++ d))
          ⊎ ((marked api (s ++ i ++ d) false ≡ false)
              × All (λ r. api.accepts r ≡ false) (s ++ i ++ d))
        → Informed api new a (close new (u, asked (asked (asked a s) i) d))
    by s i d k1 k2 k3 true m (inl (e, h)) = record {
      status = s;
      info = i;
      device = d;
      logged = refl;
      status_told = k1;
      info_told = k2;
      device_told = k3;
      result = inl (h, refl);
    }
    by s i d k1 k2 k3 false m (inr (e, h)) = record {
      status = s;
      info = i;
      device = d;
      logged = refl;
      status_told = k1;
      info_told = k2;
      device_told = k3;
      result = inr (h, refl);
    }
    by s i d k1 k2 k3 true m (inr (e, h)) = cc
    by s i d k1 k2 k3 false m (inl (e, h)) = cc
