-- ===== src/Registration/Certificates/Tests.antt =====
-- The theorem on internal/registration/certs.go at a concrete input.
use flotta_device_worker.Prelude.{String, ◌≡◌, refl, true, none, some}
use flotta_device_worker.Registration.Certificates.{
  ClientCert, not_written, Outside, succeeds, fails, IsAtomic, write_certificate,
  write_certificate-IsAtomic,
}

abbrev stored : ClientCert String
stored = record {
  cert_file = some "cert";
  key_file = some "key";
  cert_group = some ("cert", "key");
}

-- The key cannot be written.
abbrev outside : Outside String String
outside = record {
  imports = λ cert key. true;
  common_name = λ cert. cert;
  register_name = "register";
  writes_cert = succeeds;
  writes_key = fails (some "key");
  restores = succeeds;
  request = λ device_id key. some device_id;
  marshal = λ key. some key;
  new_key = λ group. none;
}

write_certificate_fails : (write_certificate outside "new" "new key" stored).0 ≡ some not_written
unfolding write_certificate
write_certificate_fails = refl

write_certificate-IsAtomic_example :
    IsAtomic "new" "new key" stored (write_certificate outside "new" "new key" stored)
write_certificate-IsAtomic_example =
    write_certificate-IsAtomic outside "new" "new key" stored ("cert", "key", refl, refl, refl) tt
      refl refl
