-- ===== src/Diagnosis/Engine/Contract.antt =====
-- What the observations must say for a restart, with no rule in it.
use self_healing_agent.Diagnosis.Engine.Order.{default_lem, diagnose-first, api_test, is_refused}
use self_healing_agent.Diagnosis.Engine.{
  is_missing, default_rules, is_stale, diagnose, is_unavailable,
}
use self_healing_agent.Diagnosis.Schemas.{not_found, dead, exited, running, ObservationBundle}
use self_healing_agent.Diagnosis.Rules.{
  redis_off, pool_full, has_stopped, is_up, is_dependency_down, is_stopped, is_saturated,
  readiness_failed, is_responsive,
}
use self_healing_agent.Text.{lower_contains}
use self_healing_agent.Prelude.{
  any, ◌||◌, sym, true≢false, Bool, sym, if◌then◌else◌, Bool, true≢false, str_eq→eq, ap, ◌∙◌,
  str_eq, ◌==◌, not, inr, some_and-true, inl, ltb, some_and, Option, Bool-cases, Option-cases, has,
  arith, ◌<◌, ◌≤◌, ◌↔◌, ◌≢◌, some, false, ℕ, ◌⊎◌, true, ◌≡◌,
}

-- The telemetry is there and at most fifteen minutes old, and the container was found.
pub record IsObserved (obs : ObservationBundle) : Type 0 where
  pub available : obs.is_telemetry_unavailable ≡ false
  pub complete : obs.prometheus ≢ some "UNAVAILABLE"
  pub fresh : (age : ℕ) → obs.freshness ≡ some age → age ≤ 900000
  pub found : obs.container_status ≢ not_found

abbrev pub Stopped : ObservationBundle → Type 0
Stopped obs =
    (obs.container_status ≡ exited)
    ⊎ ((obs.container_status ≡ dead)
        ⊎ ((obs.container_status ≢ running) × (obs.up_metric ≡ some 0)))

-- Redis or the database is named as the cause: by a metric, by an alert, or in a log line.
abbrev pub DependencyDown : ObservationBundle → Type 0
DependencyDown obs =
    (obs.redis_connected ≡ some false)
    ⊎ ((has obs.firing_alerts "RedisUnreachable" ≡ true)
        ⊎ (((n : ℕ) × (obs.db_connections_active ≡ some n) × (8 ≤ n))
            ⊎ ((has obs.firing_alerts "PostgresPoolExhausted" ≡ true)
                ⊎ (any
                      (λ line.
                        lower_contains "redis" line
                        || lower_contains "postgres" line
                        || lower_contains "connection pool" line)
                      obs.recent_log_errors
                    ≡ true))))

abbrev pub Saturated : ObservationBundle → Type 0
Saturated obs =
    (obs.container_status ≡ running)
    × ((cpu : ℕ) × (obs.normalized_cpu ≡ some cpu)
        × ((7500 ≤ cpu) ⊎ ((7000 ≤ cpu) × (has obs.firing_alerts "HighCpuSaturation" ≡ true))))

abbrev pub Failing : ObservationBundle → Type 0
Failing obs =
    ((r : ℕ) × (obs.readiness_success_ratio ≡ some r) × (r < 5000))
    ⊎ (((c : ℕ) × (obs.latest_readiness_code ≡ some c) × (c ≢ 200))
        ⊎ (has obs.firing_alerts "ApiUnresponsive" ≡ true))

-- The readiness probe succeeds throughout, with the code 200 at last.
pub record IsResponsive (obs : ObservationBundle) : Type 0 where
  pub ratio : ℕ
  pub ratio_is : obs.readiness_success_ratio ≡ some ratio
  pub always : 10000 ≤ ratio
  pub code : obs.latest_readiness_code ≡ some 200

abbrev pub Unresponsive : ObservationBundle → Type 0
Unresponsive obs = (obs.container_status ≡ running) × Failing obs × (¬ IsResponsive obs)

-- A stopped container first; a fault of a dependency rules out the others; processor time before
-- silence.
abbrev pub Restartable : ObservationBundle → Type 0
Restartable obs =
    Stopped obs
    ⊎ ((¬ Stopped obs)
        × (¬ DependencyDown obs)
        × (Saturated obs ⊎ ((¬ Saturated obs) × Unresponsive obs)))

is_stopped_iff : (obs : ObservationBundle) → (is_stopped obs ≡ true) ↔ Stopped obs
unfolding is_stopped has_stopped is_up
is_stopped_iff obs = (λ h. ground (arith, h), λ h. ground (arith, h))

is_dependency_down_iff :
    (obs : ObservationBundle) → (is_dependency_down obs ≡ true) ↔ DependencyDown obs
unfolding is_dependency_down redis_off pool_full
is_dependency_down_iff obs = (
  (λ h. elim (Option-cases obs.redis_connected) [
    | inl gone ↦ elim (Option-cases obs.db_connections_active) [
      | inl idle_pool ↦ ground (arith, h, gone, idle_pool)
      | inr (n, used) ↦ ground (arith, h, gone, used)
    ]
    | inr (r, here) ↦ elim (Option-cases obs.db_connections_active) [
      | inl idle_pool ↦ ground (arith, h, here, idle_pool)
      | inr (n, used) ↦ ground (arith, h, here, used)
    ]
  ]),
  λ h. ground (arith, h),
)

is_saturated_iff : (obs : ObservationBundle) → (is_saturated obs ≡ true) ↔ Saturated obs
unfolding is_saturated is_up
is_saturated_iff obs = (
  (λ h. elim (Option-cases obs.normalized_cpu) [
    | inl gone ↦ absurd (ground (arith, h, gone))
    | inr (cpu, here) ↦ (ground (arith, h), (cpu, here, ground (arith, h, here)))
  ]),
  λ h. ground (arith, h),
)

readiness_failed_iff : (obs : ObservationBundle) → (readiness_failed obs ≡ true) ↔ Failing obs
unfolding readiness_failed
readiness_failed_iff obs = (
  (λ h. elim (Bool-cases (some_and obs.readiness_success_ratio (λ r. ltb r 5000))) [
    | inl low ↦
        let (r, here, few) = some_and-true obs.readiness_success_ratio (λ r. ltb r 5000) low in
        inl (r, here, ground (arith, few))
    | inr high ↦ elim (Bool-cases (some_and obs.latest_readiness_code (λ c. not (c == 200)))) [
      | inl bad ↦
          let (c, here, wrong) =
            some_and-true obs.latest_readiness_code (λ c. not (c == 200)) bad in
          inr (inl (c, here, ground (arith, wrong)))
      | inr good ↦ inr (inr (ground (arith, h, high, good)))
    ]
  ]),
  λ h. ground (arith, h),
)

is_responsive_iff : (obs : ObservationBundle) → (is_responsive obs ≡ true) ↔ IsResponsive obs
unfolding is_responsive
is_responsive_iff obs = (
  (λ h. elim (Option-cases obs.readiness_success_ratio) [
    | inl gone ↦ absurd (ground (arith, h, gone))
    | inr (r, here) ↦ record {
      ratio = r;
      ratio_is = here;
      always = ground (arith, h, here);
      code = elim (Option-cases obs.latest_readiness_code) [
        | inl gone ↦ absurd (ground (arith, h, gone))
        | inr (c, there) ↦ ground (arith, h, there)
      ];
    }
  ]),
  λ h. ground (arith, h),
)

complete_telemetry : (obs : ObservationBundle) → IsObserved obs → is_unavailable obs ≡ false
unfolding is_unavailable
complete_telemetry obs h = elim (Option-cases obs.prometheus) [
  | inl gone ↦ ground (arith, h.available, gone)
  | inr (c, here) ↦ elim (Bool-cases (str_eq c "UNAVAILABLE")) [
    | inl same ↦ absurd (h.complete (here ∙ ap some (str_eq→eq c "UNAVAILABLE" same)))
    | inr apart ↦ ground (arith, h.available, here, apart)
  ]
]

fresh_telemetry : (obs : ObservationBundle) → IsObserved obs → is_stale obs ≡ false
unfolding is_stale
fresh_telemetry obs h = elim (Option-cases obs.freshness) [
  | inl gone ↦ ground (arith, gone)
  | inr (age, here) ↦ let few = h.fresh age here in ground (arith, here, few)
]

-- The tests of the first three steps, and the contract's.
IsObserved-iff :
    (obs : ObservationBundle)
    → ((is_unavailable obs ≡ false)
        × (is_stale obs ≡ false)
        × (is_missing obs.container_status ≡ false))
      ↔ IsObserved obs
unfolding is_unavailable is_stale is_missing
IsObserved-iff obs = (
  (λ h. record {
    available = ground (arith, h);
    complete = λ e. ground (arith, h, e);
    fresh = λ age here. ground (arith, h, here);
    found = λ e. ground (arith, h, e);
  }),
  (λ h. (complete_telemetry obs h, fresh_telemetry obs h, ground (arith, h.found))),
)

-- What the first three rules and the fourth's own test say, in order.
unfoldable choice : ObservationBundle → Bool
choice obs =
    if is_stopped obs
    then true
    else if is_dependency_down obs
    then false
    else if is_saturated obs
    then true
    else api_test obs

api_test_iff :
    (obs : ObservationBundle)
    → is_dependency_down obs ≡ false
    → is_saturated obs ≡ false
    → (api_test obs ≡ true) ↔ Unresponsive obs
unfolding api_test is_dependency_down is_saturated is_up
api_test_iff obs calm idle = (
  (λ h. (
    ground (arith, h),
    (readiness_failed_iff obs).0 (ground (arith, h)),
    λ quick. absurd (ground (arith, h, (is_responsive_iff obs).1 quick)),
  )),
  λ (running_now, failing, slow).
      let bad = (readiness_failed_iff obs).1 failing in
      elim (Bool-cases (is_responsive obs)) [
        | inl quick ↦ absurd (slow ((is_responsive_iff obs).0 quick))
        | inr silent ↦ ground (arith, running_now, bad, silent, calm, idle)
      ],
)

choice-Restartable : (obs : ObservationBundle) → choice obs ≡ true → Restartable obs
unfolding choice
choice-Restartable obs h = elim (Bool-cases (is_stopped obs)) [
  | inl stopped ↦ inl ((is_stopped_iff obs).0 stopped)
  | inr going ↦ elim (Bool-cases (is_dependency_down obs)) [
    | inl down ↦ absurd (ground (arith, h, going, down))
    | inr calm ↦ inr (
      (λ stopped. true≢false (sym ((is_stopped_iff obs).1 stopped) ∙ going)),
      (λ down. true≢false (sym ((is_dependency_down_iff obs).1 down) ∙ calm)),
      elim (Bool-cases (is_saturated obs)) [
        | inl busy ↦ inl ((is_saturated_iff obs).0 busy)
        | inr idle ↦ inr (
          (λ busy. true≢false (sym ((is_saturated_iff obs).1 busy) ∙ idle)),
          (api_test_iff obs calm idle).0 (ground (arith, h, going, calm, idle)),
        )
      ],
    )
  ]
]

not-true : {b : Bool} → b ≢ true → b ≡ false
not-true {b} h = ground (arith, h)

Restartable-choice : (obs : ObservationBundle) → Restartable obs → choice obs ≡ true
unfolding choice
Restartable-choice obs (inl stopped) = ground (arith, (is_stopped_iff obs).1 stopped)
Restartable-choice obs (inr (going, calm, inl busy)) =
    let off = not-true (λ b. calm ((is_dependency_down_iff obs).0 b)) in
    ground (arith, off, (is_saturated_iff obs).1 busy)
Restartable-choice obs (inr (going, calm, inr (idle, silent))) =
    let off = not-true (λ b. calm ((is_dependency_down_iff obs).0 b)) in
    let spare = not-true (λ b. idle ((is_saturated_iff obs).0 b)) in
    ground (arith, off, spare, (api_test_iff obs off spare).1 silent)

-- A diagnosis is actionable exactly where the telemetry is there and fresh, the container was found, and
-- it has stopped, or, with no dependency down, is saturated or, not saturated, runs without answering.
pub diagnose-actionable_iff :
    (incident : ℕ) (obs : ObservationBundle) (parent : Option ℕ)
    → ((diagnose default_rules incident obs parent).is_actionable ≡ true)
      ↔ (IsObserved obs × Restartable obs)
unfolding is_refused choice
diagnose-actionable_iff incident obs parent =
    let e = diagnose-first default_rules incident obs parent in
    let d = default_lem obs in
    (
      (λ h. (
        (IsObserved-iff obs).0 (ground (arith, e, h)),
        choice-Restartable obs (ground (arith, e, d, h)),
      )),
      λ (o, r).
          let seen = (IsObserved-iff obs).1 o in
          let chosen = Restartable-choice obs r in ground (arith, e, d, seen, chosen),
    )
