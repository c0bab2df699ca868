-- ===== src/Registration/Certificates.antt =====
-- internal/registration/certs.go: the client certificate and its key, in two files and in memory.
mod Tests
use flotta_device_worker.Prelude.{
  inl, inr, ◌≡◌, refl, sym, Bool, Option, none, some, if◌then◌else◌, String, string_eq, ◌==◌,
  Bool-cases,
}

-- `ClientCert`, with the content of its two files, `none` if there is no such file. `cert_group` is what
-- was given to the import: the certificate and the key.
pub record ClientCert (B : Type 0) : Type 0 where
  pub cert_file : Option B
  pub key_file : Option B
  pub cert_group : Option (B × B)

pub data Err : Type 0 where
  no_file not_imported not_written no_request no_key panics : Err

-- A write of a file: it succeeds, or fails and leaves something behind.
pub data Write (B : Type 0) : Type 0 where
  succeeds : Write B
  fails : Option B → Write B

-- The code outside: whether a pair can be imported and the name in its certificate, what the three writes
-- come to (of the certificate, of the key, and of the old certificate again), the request for a new
-- certificate, its new key and the text of a key.
pub record Outside (B K : Type 0) : Type 0 where
  pub imports : B → B → Bool
  pub common_name : B → String
  pub register_name : String
  pub writes_cert : Write B
  pub writes_key : Write B
  pub restores : Write B
  pub request : String → K → Option B
  pub marshal : K → Option B
  pub new_key : B × B → Option K

-- What the preparation of a request gives: an error, or the request and the text of its key.
pub data Prepared (B : Type 0) : Type 0 where
  ok : B × B → Prepared B
  error : Err → Prepared B

module _ {B : Type 0} where
  abbrev pub written : Write B → B → Option B
  written succeeds content = some content
  written (fails left) content = left

  -- The files hold the pair in memory.
  abbrev pub IsMatched : ClientCert B → Type 0
  IsMatched c =
      (cert : B) × (key : B) × (c.cert_group ≡ some (cert, key))
      × (c.cert_file ≡ some cert)
      × (c.key_file ≡ some key)

  -- A write that fails leaves the file as it was.
  abbrev pub Keeps : Write B → Option B → Type 0
  Keeps succeeds before = Unit
  Keeps (fails left) before = left ≡ before

  -- What is promised: without an error the files and the memory have the new pair, with one all is as before.
  abbrev pub Written : Option Err → B → B → ClientCert B → ClientCert B → Type 0
  Written none cert key before c =
      (c.cert_file ≡ some cert) × (c.key_file ≡ some key) × (c.cert_group ≡ some (cert, key))
  Written (some e) cert key before c =
      (c.cert_file ≡ before.cert_file)
      × (c.key_file ≡ before.key_file)
      × (c.cert_group ≡ before.cert_group)

  abbrev pub IsAtomic : B → B → ClientCert B → Option Err × ClientCert B → Type 0
  IsAtomic cert key before (failed, c) = Written failed cert key before c

  abbrev pub with_request : Option B → Option B → Prepared B
  with_request none key = error no_request
  with_request (some request) none = error no_key
  with_request (some request) (some key) = ok (request, key)

module _ {B K : Type 0} where
  abbrev pub import_pair :
      Outside B K → Option B → Option B → ClientCert B → Option Err × ClientCert B
  import_pair out none key c = (some no_file, c)
  import_pair out (some cert) none c = (some no_file, c)
  import_pair out (some cert) (some key) c = (
    (if out.imports cert key then none else some not_imported),
    record c { cert_group = some (cert, key) },
  )

  -- `init`: the pair is kept also if it cannot be imported.
  unfoldable pub init : Outside B K → ClientCert B → Option Err × ClientCert B
  init out c = import_pair out c.cert_file c.key_file c

  -- `IsRegisterCert`; a pair that was not imported has no certificate.
  abbrev pub is_register : Outside B K → Option (B × B) → Option Bool
  is_register out none = none
  is_register out (some (cert, key)) =
      if out.imports cert key then some ((out.common_name cert == out.register_name)) else none

  unfoldable pub is_register_cert : Outside B K → ClientCert B → Option Bool
  is_register_cert out c = is_register out c.cert_group

  -- `Renew`
  unfoldable pub renew : Outside B K → String → K → Prepared B
  renew out device_id key = with_request (out.request device_id key) (out.marshal key)

  abbrev pub with_new_key : Outside B K → String → Option K → Prepared B
  unfolding renew
  with_new_key out device_id none = error no_key
  with_new_key out device_id (some key) = renew out device_id key

  abbrev pub with_group : Outside B K → String → Option (B × B) → Prepared B
  unfolding renew
  with_group out device_id none = error panics
  with_group out device_id (some group) = with_new_key out device_id (out.new_key group)

  -- `CreateDeviceCerts`: with nothing imported the program panics.
  unfoldable pub create_device_certs : Outside B K → String → ClientCert B → Prepared B
  unfolding renew
  create_device_certs out device_id c = with_group out device_id c.cert_group

  -- The old certificate is written back. With nothing imported there is none, and the program panics.
  abbrev pub restore : Outside B K → Option (B × B) → ClientCert B → Option Err × ClientCert B
  restore out none c = (some panics, c)
  restore out (some (cert, key)) c =
      (some not_written, record c { cert_file = written out.restores cert })

  -- The write of the key, after that of the certificate.
  abbrev pub write_key : Outside B K → Write B → B → B → ClientCert B → Option Err × ClientCert B
  write_key out succeeds cert key c =
      (none, record c { key_file = some key; cert_group = some (cert, key) })
  write_key out (fails left) cert key c = restore out c.cert_group (record c { key_file = left })

  abbrev pub write_cert : Outside B K → Write B → B → B → ClientCert B → Option Err × ClientCert B
  write_cert out succeeds cert key c =
      write_key out out.writes_key cert key (record c { cert_file = some cert })
  write_cert out (fails left) cert key c = (some not_written, record c { cert_file = left })

  -- `WriteCertificate`
  unfoldable pub write_certificate : Outside B K → B → B → ClientCert B → Option Err × ClientCert B
  write_certificate out cert key c =
      if out.imports cert key
      then write_cert out out.writes_cert cert key c
      else (some not_imported, c)

  -- The old certificate is written back, over the new one.
  restore-IsAtomic :
      (out : Outside B K) (cert key : B) (c : ClientCert B) (left : Option B)
      → IsMatched c
      → left ≡ c.key_file
      → out.restores ≡ succeeds
      → IsAtomic cert key c
          (restore out c.cert_group (record c { cert_file = some cert; key_file = left }))
  restore-IsAtomic out cert key c left (cert0, key0, is_group, is_cert, is_key) kept restored =
      rw (is_group, restored) (sym is_cert, kept, refl)

  write_key-IsAtomic :
      (out : Outside B K) (w : Write B) (cert key : B) (c : ClientCert B)
      → IsMatched c
      → Keeps w c.key_file
      → out.restores ≡ succeeds
      → IsAtomic cert key c (write_key out w cert key (record c { cert_file = some cert }))
  write_key-IsAtomic out succeeds cert key c m keeps restored = (refl, refl, refl)
  write_key-IsAtomic out (fails left) cert key c m keeps restored =
      restore-IsAtomic out cert key c left m keeps restored

  write_cert-IsAtomic :
      (out : Outside B K) (w : Write B) (cert key : B) (c : ClientCert B)
      → IsMatched c
      → Keeps w c.cert_file
      → Keeps out.writes_key c.key_file
      → out.restores ≡ succeeds
      → IsAtomic cert key c (write_cert out w cert key c)
  write_cert-IsAtomic out succeeds cert key c m keeps_cert keeps_key restored =
      write_key-IsAtomic out out.writes_key cert key c m keeps_key restored
  write_cert-IsAtomic out (fails left) cert key c m keeps_cert keeps_key restored =
      (keeps_cert, refl, refl)

  -- If the files hold the pair in memory, a write that fails leaves its file as it was, and the old
  -- certificate can be written back, then storing a new certificate is atomic: without an error both files
  -- and the memory have the new pair, and with an error, whichever step gives it, all three are as before.
  pub write_certificate-IsAtomic :
      (out : Outside B K) (cert key : B) (c : ClientCert B)
      → IsMatched c
      → Keeps out.writes_cert c.cert_file
      → Keeps out.writes_key c.key_file
      → out.restores ≡ succeeds
      → IsAtomic cert key c (write_certificate out cert key c)
  unfolding write_certificate
  write_certificate-IsAtomic out cert key c m keeps_cert keeps_key restored =
      elim (Bool-cases (out.imports cert key)) [
        | inl e ↦
            rw e
              (write_cert-IsAtomic out out.writes_cert cert key c m keeps_cert keeps_key restored)
        | inr e ↦ rw e (refl, refl, refl)
      ]
