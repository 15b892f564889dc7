-- ===== src/Ssh/HostKey/Trusted.antt =====
-- Which keys a session trusts.
use grenat.Prelude.{ℕ, ◌≡◌, refl, sym, ap, Bool, true, false, if◌then◌else◌, arith, ◌⊎◌, inl, inr}
use grenat.Prelude.Results.{Result, ok, err}
use grenat.Prelude.Text.{Text, is_empty, text_eq, text_eq_iff}
use grenat.Ssh.HostPattern.{host_name}
use grenat.Ssh.KnownHosts.{Keys, Lookup, known, unknown, changed, revoked, lookup, lines}
use grenat.Ssh.KnownHosts.Answers.{NoLine}
use grenat.Ssh.KnownHosts.Lookups.{revokes, agrees, differs, entry_at, IsVerdict, lookup-IsVerdict}
use grenat.Ssh.HostKey.{
  Policy, fingerprint_of, file, record_into, HostKey, Refusal, Reading, Printing, normalize,
  same_fingerprint, read, line, offered, judge, verify_in, verify,
}

module _ (keys : Keys) (printing : Printing keys.Key) (reading : Reading)
    (appends : Text → Bool) where
  -- What the file holds where a key is trusted by it: no line revokes the key, and one of the host has it; or
  -- the key is recorded, no line is of the host, and the new line is in the file.
  abbrev pub IsVouched : (records : Bool) → (name : Text) → keys.Key → HostKey → Type 0
  IsVouched records name key got =
      (text : Text) × (read reading ≡ ok text)
      × NoLine (λ k. revokes keys name key (entry_at keys name key (lines text) k))
      × (((got.recorded ≡ false)
            × ((k : ℕ) × (agrees keys name key (entry_at keys name key (lines text) k) ≡ true)))
          ⊎ ((got.recorded ≡ true)
              × (records ≡ true)
              × (appends (line keys printing name key) ≡ true)
              × NoLine (λ k. agrees keys name key (entry_at keys name key (lines text) k))
              × NoLine (λ k. differs keys name key (entry_at keys name key (lines text) k))))

  abbrev pub IsTrusted : Policy → (host : Text) → (port : ℕ) → keys.Key → HostKey → Type 0
  IsTrusted (fingerprint_of expected) host port key got =
      (is_empty (normalize expected) ≡ false)
      × (normalize expected ≡ normalize (printing.sha256_of key))
      × (got.recorded ≡ false)
  IsTrusted (file path) host port key got = IsVouched false (host_name host port) key got
  IsTrusted (record_into path) host port key got = IsVouched true (host_name host port) key got

  accepted :
      (b : Bool) (to got : HostKey) (refusal : Refusal)
      → (if b then ok to else err refusal) ≡ ok got
      → (b ≡ true) × (to.recorded ≡ got.recorded)
  accepted true to got refusal e =
      (refl, ap (λ r. elim r [ ok key ↦ key.recorded | err refusal' ↦ true ]) e)
  accepted false to got refusal e = absurd (ground arith)

  judge-IsVouched :
      (records : Bool) (name : Text) (key : keys.Key) (got : HostKey) (text : Text)
      → read reading ≡ ok text
      → (d : Lookup) → IsVerdict keys name key (lines text) d
      → judge keys printing reading appends records name key d ≡ ok got
      → IsVouched records name key got
  unfolding judge
  judge-IsVouched records name key got text r known (free, k) e =
      (text, r, free, inl (ground (arith, e), k))
  judge-IsVouched true name key got text r unknown (free, g, d) e =
      let new : HostKey = record (offered keys printing key) { recorded = true } in
      let (wrote, marked) =
        accepted (appends (line keys printing name key)) new got Refusal.cannot_record e in
      (text, r, free, inr (sym marked, refl, wrote, g, d))
  judge-IsVouched false name key got text r unknown v e = absurd (ground (arith, e))
  judge-IsVouched records name key got text r (changed n) v e = absurd (ground (arith, e))
  judge-IsVouched records name key got text r (revoked n) v e = absurd (ground (arith, e))

  verify_in-IsVouched :
      (path : Text) (records : Bool) (host : Text) (port : ℕ) (key : keys.Key) (got : HostKey)
      → verify_in keys printing reading appends path records host port key ≡ ok got
      → IsVouched records (host_name host port) key got
  unfolding verify_in
  verify_in-IsVouched path records host port key got e =
      by_reading (is_empty path) (read reading) refl e
    where
      by_reading :
          (b : Bool) (r : Result Refusal Text)
          → read reading ≡ r
          → (if b then err Refusal.no_file else elim r [
            | err refusal ↦ err refusal
            | ok text ↦
                judge keys printing reading appends records
                  (host_name host port)
                  key
                  (lookup keys (host_name host port) key text)
          ])
            ≡ ok got
          → IsVouched records (host_name host port) key got
      by_reading true r at f = absurd (ground arith)
      by_reading false (err refusal) at f = absurd (ground arith)
      by_reading false (ok text) at f =
          let name = host_name host port in
          judge-IsVouched records name key got text at (lookup keys name key text)
            (lookup-IsVerdict keys name key text) f

  -- A key is trusted under a fingerprint only where that, without padding and its prefix, is not empty and is the
  -- key's; under a file only where that can be read, no line revokes the key, and a line of the host has it;
  -- under a file to record into also where the key was recorded, and no line was of the host at all.
  pub verify-IsTrusted :
      (policy : Policy) (host : Text) (port : ℕ) (key : keys.Key) (got : HostKey)
      → verify keys printing reading appends policy host port key ≡ ok got
      → IsTrusted policy host port key got
  unfolding verify same_fingerprint
  verify-IsTrusted (fingerprint_of expected) host port key got e =
      let (same, marked) =
        accepted (same_fingerprint expected (printing.sha256_of key)) (offered keys printing key)
          got Refusal.not_expected e in
      let some_text : is_empty (normalize expected) ≡ false = ground (arith, same) in
      let equal : text_eq (normalize expected) (normalize (printing.sha256_of key)) ≡ true =
        ground (arith, same) in
      (
        some_text,
        (text_eq_iff (normalize expected) (normalize (printing.sha256_of key))).0 equal,
        sym marked,
      )
  verify-IsTrusted (file path) host port key got e =
      verify_in-IsVouched path false host port key got e
  verify-IsTrusted (record_into path) host port key got e =
      verify_in-IsVouched path true host port key got e
