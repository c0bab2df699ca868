-- ===== src/RemoteWrite/Control/Invariant.antt =====
-- What holds between the steps of internal/metrics/remote_write.go.
use flotta_device_worker.Prelude.{
  ℕ, ◌-◌, ◌≡◌, ◌≢◌, refl, ◌↔◌, ◌∙◌, ap, ◌==◌, string_eq, inl, inr, Bool, true, false, Option, none,
  some, arith, Bool-cases, Option-cases,
}
use flotta_device_worker.RemoteWrite.Control.{
  ReceiverConfig, Control, Outside, feature_disabled, same_config, apply_config,
  remove_server_ca_files, start_routine, disable, enable, update, get_config, writes, exits,
  nil_dereference,
}

-- The goroutines that `isRunning` speaks of.
abbrev pub running : Bool → ℕ
running true = 1
running false = 0

-- Between steps: `isRunning` says whether the one routine runs; a client is there only for an enabled
-- configuration, and is made from it, and then a routine runs.
pub record IsSteady (c : Control) : Type 0 where
  pub one_routine : c.routines ≡ running c.is_running
  pub client_config : (client : ReceiverConfig) → c.client ≡ some client → c.config ≡ some client
  pub served : c.client ≢ none → c.is_running ≡ true
  pub enabled : feature_disabled c.config ≡ false → c.client ≢ none
  pub only_enabled : c.client ≢ none → feature_disabled c.config ≡ false

-- `applyConfig` changes only the client and the CA files, and the client only if it succeeds.
apply_config_lem :
    (o : Outside) (config : ReceiverConfig) (c : Control)
    → let (failed, c') = apply_config o config c in
      (c'.config ≡ c.config)
      × (c'.is_running ≡ c.is_running)
      × (c'.routines ≡ c.routines)
      × (failed ≡ none → c'.client ≡ some config)
      × (failed ≢ none → c'.client ≡ c.client)
unfolding apply_config
apply_config_lem o config c = ground arith

remove_server_ca_files_lem :
    (o : Outside) (c : Control)
    → let c' = remove_server_ca_files o c in
      (c'.config ≡ c.config)
      × (c'.is_running ≡ c.is_running)
      × (c'.routines ≡ c.routines)
      × (c'.client ≡ c.client)
unfolding remove_server_ca_files
remove_server_ca_files_lem o c = ground arith

disable-IsSteady :
    (o : Outside) (new : Option ReceiverConfig) (c : Control)
    → c.routines ≡ running c.is_running
    → feature_disabled new ≡ true
    → IsSteady (record (disable o c) { config = new })
unfolding disable
disable-IsSteady o new c r d = record {
  one_routine = ground arith;
  client_config = λ client h. absurd (ground arith);
  served = λ h. absurd (h (ground arith));
  enabled = λ h. absurd (ground arith);
  only_enabled = λ h. absurd (h (ground arith));
}

IsSteady-changed :
    (c c' : Control)
    → c'.config ≡ c.config
    → c'.is_running ≡ c.is_running
    → c'.routines ≡ c.routines
    → c'.client ≡ c.client
    → IsSteady c
    → IsSteady c'
IsSteady-changed c c' e f g k h = record {
  one_routine = ground (arith, h.one_routine);
  client_config = λ client p. cc (e, h.client_config client (cc (p, k)));
  served = λ p. f ∙ h.served (λ q. p (k ∙ q));
  enabled = λ p q. h.enabled (cc (ap feature_disabled e, p)) (cc (k, q));
  only_enabled = λ p. ap feature_disabled e ∙ h.only_enabled (λ q. p (k ∙ q));
}

-- Starting the routine for a client that was just made.
started-IsSteady :
    (c : Control) (config : ReceiverConfig)
    → c.routines ≡ running c.is_running
    → c.client ≡ some config
    → (config.url == "") ≡ false
    → IsSteady (record (start_routine c) { config = some config })
unfolding start_routine
started-IsSteady c config r e url = record {
  one_routine = ground arith;
  client_config = λ client h. ground arith;
  served = λ h. ground arith;
  enabled = λ h. ground arith;
  only_enabled = λ h. url;
}

enable-IsSteady :
    (o : Outside) (config : ReceiverConfig) (c : Control)
    → IsSteady c
    → (config.url == "") ≡ false
    → IsSteady (enable o config c).1
unfolding enable
enable-IsSteady o config c h url =
    let (k, run, count, good, bad) = apply_config_lem o config c in
    let c' = (apply_config o config c).1 in
    elim (Option-cases (apply_config o config c).0) [
      | inl e ↦
          rw (e, enable) (started-IsSteady c' config (ground (arith, h.one_routine)) (good e) url)
      | inr (x, e) ↦ rw (e, enable) (IsSteady-changed c c' k run count (bad (λ q. cc)) h)
    ]

-- Every update of the receiver, whether it succeeds or fails, keeps the invariant: at most one
-- goroutine writes, a client is there exactly for the enabled configuration in force, and is served.
pub update-IsSteady :
    (o : Outside) (new : Option ReceiverConfig) (c : Control)
    → IsSteady c
    → IsSteady (update o new c).1
unfolding update
update-IsSteady o none c h = elim (Bool-cases (same_config c.config none)) [
  | inl same ↦ rw same h
  | inr other ↦ rw other (disable-IsSteady o none c h.one_routine refl)
]
update-IsSteady o (some config) c h = elim (Bool-cases (same_config c.config (some config))) [
  | inl same ↦ rw same h
  | inr other ↦ elim (Bool-cases (config.url == "")) [
    | inl empty ↦ rw (other, empty) (disable-IsSteady o (some config) c h.one_routine empty)
    | inr url ↦ rw (other, url) (enable-IsSteady o config c h url)
  ]
]

-- The turn of the goroutine finds a configuration whenever it finds a client, exits exactly when there
-- is no client, and keeps the invariant.
pub get_config-IsSteady :
    (c : Control)
    → IsSteady c
    → c.is_running ≡ true
    → IsSteady (get_config c).1
      × ((get_config c).0 ≢ nil_dereference)
      × (((get_config c).0 ≡ exits) ↔ (c.client ≡ none))
unfolding get_config
get_config-IsSteady c h on = elim (Option-cases c.client) [
  | inl e ↦
      let c' : Control = record c { is_running = false; routines = c.routines - 1 } in
      let turn : get_config c ≡ (exits, c') = ground arith in
      rw turn (
        record {
          one_routine = ground (arith, h.one_routine);
          client_config = λ client p. cc;
          served = λ p. absurd (p e);
          enabled = λ p. absurd (h.enabled p e);
          only_enabled = λ p. absurd (p e);
        },
        (λ p. cc),
        ((λ p. e), λ p. refl),
      )
  | inr (client, e) ↦
      let known = h.client_config client e in
      let turn : get_config c ≡ (writes client client, c) = ground arith in
      rw turn (h, (λ p. cc), ((λ p. cc), λ p. cc))
]
