-- ===== src/AnsibleMapping/Tests.antt =====
-- The theorems on internal/ansible/mapping/mapping.go at concrete inputs.
use flotta_device_worker.Prelude.{refl, [], ◌∷◌, lookup, arith, eq_iff}
use flotta_device_worker.AnsibleMapping.{Repository, absent, empty_repository}
use flotta_device_worker.AnsibleMapping.Tidy.{IsTidy}

abbrev empty : Repository
empty = empty_repository absent

empty-IsTidy : IsTidy empty
unfolding lookup
empty-IsTidy = record {
  there = λ p t e. cc;
  back = λ p t e. cc;
  no_zero_time = refl;
  named = λ p. ((λ e. refl), (λ e. refl));
  has_status = λ p n e. cc;
}

-- One playbook that runs.
abbrev running_one : Repository
running_one = record {
  mod_time_to_path = (7, "/etc/1f") ∷ [];
  path_to_mod_time = ("/etc/1f", 7) ∷ [];
  path_to_name = ("/etc/1f", "reboot") ∷ [];
  name_status = ("reboot", "Running") ∷ [];
  name = "reboot";
  file = absent;
}

running_one-IsTidy : IsTidy running_one
unfolding lookup
running_one-IsTidy = record {
  there = λ p t. ground (arith, eq_iff "/etc/1f" p);
  back = λ p t. ground (arith, eq_iff "/etc/1f" p);
  no_zero_time = refl;
  named = λ p. ((λ e. ground (arith)), (λ e. ground arith));
  has_status = λ p n e. λ q. ground (arith, eq_iff "reboot" n);
}
