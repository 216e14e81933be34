-- ===== src/Serve/Junos/Effects.antt =====
-- What the Junos driver answers.
use rconfig_sim.Base.{Bytes, ℕ, ◌≡◌, ◌≢◌, ◌↔◌, ◌⊎◌, true, false, [], arith, In}
use rconfig_sim.Serve.Junos.{junos_commands, dispatch_junos}
use rconfig_sim.Command.{exit, junos_show_configuration}

-- Every label is one that the driver announces; only a line whose one word is "exit" or "quit" closes
-- the session; the configuration is the output of just the show command, and nothing else comes with
-- it; and no answer asks for a password.
pub dispatch_junos-effects :
    (typed_line config : Bytes) (n : ℕ)
    → let a = dispatch_junos typed_line config n in
      In a.0 junos_commands
      × ((a.1.close ≡ true) ↔ (a.0 ≡ exit))
      × ((a.0 ≡ junos_show_configuration) ⊎ (a.1.config_output ≡ []))
      × ((a.0 ≢ junos_show_configuration) ⊎ ((a.1.config_output ≡ config) × (a.1.output ≡ [])))
      × (a.1.request_enable_password ≡ false)
unfolding dispatch_junos
dispatch_junos-effects typed_line config n = ground arith
