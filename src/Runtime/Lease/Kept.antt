-- ===== src/Runtime/Lease/Kept.antt =====
-- A lease along any sequence of calls.
use self_healing_agent.Runtime.Lease.{
  leased_elsewhere, expiry_violated, version_mismatch, incident_missing, raised, LeaseError,
  WorkflowLease, Leases, put_lease, acquire_incident_lease, verify_incident_lease,
  renew_incident_lease, release_incident_lease, upsert_lease,
}
use self_healing_agent.Incident.Store.{Incident, find_incident}
use self_healing_agent.Prelude.{
  ◌+◌, leb, some_and, ◌∙◌, inr, ==→eq, inl, Option-cases, Bool-cases, subst, All, [], sym, ◌∷◌, ◌≤◌,
  str_eq, ◌<◌, arith, true, some, not, ◌==◌, Bool, ◌≡◌, Option, String, List, ℕ, none, refl, false,
}

pub data LeaseCall : Type 0 where
  acquire : String → ℕ → ℕ → Option ℕ → LeaseCall
  renew : ℕ → ℕ → LeaseCall
  release : ℕ → LeaseCall

-- A call, its time, its incident, and the incidents as they are then.
pub record LeaseEvent : Type 0 where
  pub call : LeaseCall
  pub at : ℕ
  pub incident : ℕ
  pub incidents : List Incident

unfoldable pub perform_call : LeaseCall → ℕ → List Incident → ℕ → Leases → Leases
perform_call (acquire owner token ttl version) now incidents i leases =
    (acquire_incident_lease owner token ttl version now incidents leases i).0
perform_call (renew token ttl) now incidents i leases =
    (renew_incident_lease token ttl now leases i).0
perform_call (release token) now incidents i leases = release_incident_lease token leases i

unfoldable pub run_calls : List LeaseEvent → Leases → Leases
run_calls [] leases = leases
run_calls (e ∷ es) leases = run_calls es (perform_call e.call e.at e.incidents e.incident leases)

-- An acquisition by another owner, or a call with another token.
unfoldable pub is_foreign_call : String → ℕ → LeaseCall → Bool
is_foreign_call owner token (acquire o t ttl version) = not (str_eq owner o)
is_foreign_call owner token (renew t ttl) = not (token == t)
is_foreign_call owner token (release t) = not (token == t)

abbrev pub Foreign : String → ℕ → ℕ → ℕ → LeaseEvent → Type 0
Foreign owner token until i e =
    (i == e.incident) ≡ true → (is_foreign_call owner token e.call ≡ true) × (e.at ≤ until)

pub record IsLeased (owner : String) (token until : ℕ) (row : Option WorkflowLease) : Type 0 where
  pub lease : WorkflowLease
  pub here : row ≡ some lease
  pub owned : lease.owner ≡ owner
  pub under : lease.token ≡ token
  pub lasting : until < lease.expires_at

verify-IsLeased :
    (owner : String) (token until i : ℕ) (incidents : List Incident) (leases : Leases)
    → IsLeased owner token until (leases i)
    → verify_incident_lease token none until incidents leases i ≡ true
unfolding verify_incident_lease
verify-IsLeased owner token until i incidents leases h =
    let row = h.here in let t = h.under in let l = h.lasting in ground (arith, row, t, l)

elsewhere :
    (call : LeaseCall) (now i j : ℕ) (incidents : List Incident) (leases : Leases)
    → (i == j) ≡ false
    → perform_call call now incidents j leases i ≡ leases i
unfolding perform_call acquire_incident_lease renew_incident_lease release_incident_lease put_lease
elsewhere (acquire owner token ttl version) now i j incidents leases apart = ground (arith, apart)
elsewhere (renew token ttl) now i j incidents leases apart = ground (arith, apart)
elsewhere (release token) now i j incidents leases apart = ground (arith, apart)

untouched :
    (owner : String) (token until now i : ℕ) (incidents : List Incident) (leases : Leases)
    (call : LeaseCall)
    → is_foreign_call owner token call ≡ true
    → now ≤ until
    → IsLeased owner token until (leases i)
    → perform_call call now incidents i leases i ≡ leases i
unfolding perform_call acquire_incident_lease renew_incident_lease release_incident_lease put_lease
    is_foreign_call upsert_lease
untouched owner token until now i incidents leases (acquire o t ttl version) foreign le h =
    let row = h.here in
    let l = h.lasting in
    let mine : str_eq h.lease.owner o ≡ false =
      subst (λ x. str_eq x o ≡ false) (sym h.owned) (ground (arith, foreign)) in
    ground (arith, foreign, le, row, l, mine)
untouched owner token until now i incidents leases (renew t ttl) foreign le h =
    let row = h.here in let u = h.under in ground (arith, foreign, row, u)
untouched owner token until now i incidents leases (release t) foreign le h =
    let row = h.here in let u = h.under in ground (arith, foreign, row, u)

run_calls-same :
    (owner : String) (token until i : ℕ) (es : List LeaseEvent) (leases : Leases)
    → All (Foreign owner token until i) es
    → IsLeased owner token until (leases i)
    → run_calls es leases i ≡ leases i
unfolding run_calls
run_calls-same owner token until i [] leases safe h = refl
run_calls-same owner token until i (e ∷ es) leases (now_safe, later_safe) h =
    let same : perform_call e.call e.at e.incidents e.incident leases i ≡ leases i =
      elim (Bool-cases (i == e.incident)) [
        | inl mine ↦
            let (foreign, le) = now_safe mine in
            rw (sym (==→eq i e.incident mine))
              (untouched owner token until e.at i e.incidents leases e.call foreign le h)
        | inr apart ↦ elsewhere e.call e.at i e.incident e.incidents leases apart
      ] in
    run_calls-same owner token until i es (perform_call e.call e.at e.incidents e.incident leases)
      later_safe (subst (IsLeased owner token until) (sym same) h)
    ∙ same

acquire-refused :
    (owner other : String) (token until fresh ttl now i : ℕ) (version : Option ℕ)
    (incidents : List Incident) (leases : Leases)
    → str_eq owner other ≡ false
    → now ≤ until
    → IsLeased owner token until (leases i)
    → (e : LeaseError) × (acquire_incident_lease other fresh ttl version now incidents leases i
        ≡ (leases, raised e))
unfolding acquire_incident_lease upsert_lease
acquire-refused owner other token until fresh ttl now i version incidents leases apart le h =
    let row = h.here in
    let l = h.lasting in
    let mine : str_eq h.lease.owner other ≡ false =
      subst (λ x. str_eq x other ≡ false) (sym h.owned) apart in
    elim (Option-cases (find_incident i incidents)) [
      | inl gone ↦ (incident_missing, ground (arith, gone))
      | inr (x, found) ↦ elim (Bool-cases (some_and version (λ v. not (x.version == v)))) [
        | inl wrong ↦ (version_mismatch, ground (arith, found, wrong))
        | inr right ↦ elim (Bool-cases (leb (now + ttl) now)) [
          | inl short ↦ (expiry_violated, ground (arith, found, right, short))
          | inr long ↦ (leased_elsewhere, ground (arith, found, right, long, row, l, le, mine))
        ]
      ]
    ]

-- A lease of an owner that is verified for a time is verified for it after any calls that are on other
-- incidents, or come by that time with other tokens or, to acquire, from other owners; and until then
-- every acquisition by another owner is refused, whatever the incidents are, and changes nothing.
pub incident_lease-kept :
    (owner : String) (token until i : ℕ) (es : List LeaseEvent) (incidents : List Incident)
    (leases : Leases) (lease : WorkflowLease)
    → leases i ≡ some lease
    → lease.owner ≡ owner
    → verify_incident_lease token none until incidents leases i ≡ true
    → All (Foreign owner token until i) es
    → (other : String) (fresh ttl now : ℕ) (version : Option ℕ) (found : List Incident)
    → str_eq owner other ≡ false
    → now ≤ until
    → let after = run_calls es leases in
      (verify_incident_lease token none until incidents after i ≡ true)
      × ((e : LeaseError) × (acquire_incident_lease other fresh ttl version now found after i
            ≡ (after, raised e)))
unfolding verify_incident_lease
incident_lease-kept owner token until i es incidents leases lease here owned ok safe other fresh ttl
      now version found apart le =
    let held : IsLeased owner token until (leases i) = record {
      lease = lease;
      here = here;
      owned = owned;
      under = ground (arith, ok, here);
      lasting = ground (arith, ok, here);
    } in
    let still =
      subst (IsLeased owner token until)
        (sym (run_calls-same owner token until i es leases safe held)) held in
    (
      verify-IsLeased owner token until i incidents (run_calls es leases) still,
      acquire-refused owner other token until fresh ttl now i version found (run_calls es leases)
          apart le still,
    )
