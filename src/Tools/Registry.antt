-- ===== src/Tools/Registry.antt =====
-- src/tools/ToolRegistry.ts, and from src/tools/contracts.ts the health reports. A tool's own hooks
-- are given by what they end with.
pub mod Choice
use agent_diaries_core.Prelude.{
  ℕ, suc, ite, Bool, true, false, ◌&&◌, ◌||◌, List, [], ◌∷◌, map, Option, none, some, Text,
  Text-discrete, codes, filter, any, all, leb, length, if◌then◌else◌,
}
use agent_diaries_core.JsMap.{JsMap}
use agent_diaries_core.JsMap
use agent_diaries_core.Shared.{thrown, message}
use agent_diaries_core.Shared.Effect.{Result, ok, err}

pub data Health : Type 0 where
  healthy degraded unavailable maintenance disabled unknown : Health

unfoldable pub Health-discrete : Discrete Health
Health-discrete = hlevel

-- `ToolHealthCheckResult`, but for its diagnostics.
pub record Report : Type 0 where
  pub state : Health
  pub message : Option Text
  pub checked_at : ℕ

-- `AnyHealthCheckResult`
pub data RawReport : Type 0 where
  rich : Report → RawReport
  legacy : Bool → Option Text → RawReport

unfoldable pub normalize_health_check_result : RawReport → ℕ → Report
normalize_health_check_result (rich r) now = r
normalize_health_check_result (legacy good message) now = record {
  state = if good then healthy else unavailable;
  message = message;
  checked_at = now;
}

pub record Tool : Type 0 where
  pub name : Text
  pub capabilities : List Text
  pub permissions : List Text
  pub tags : Option (List Text)
  pub category : Option Text
  pub estimated_latency_ms : Option ℕ
  pub estimated_cost_usd : Option ℕ
  pub health_state : Option Health
  pub initialize : Option (Result (Unit {0}))
  pub cleanup : Option (Result (Unit {0}))
  pub health_check : Option (Result RawReport)

abbrev pub Registry : Type 0
Registry = JsMap Tool

abbrev pub same_text : Text → Text → Bool
same_text a b = ite (Text-discrete a b) true false

abbrev pub includes : List Text → Text → Bool
includes ts t = any (λ u. same_text u t) ts

abbrev pub or_empty : Option (List Text) → List Text
or_empty none = []
or_empty (some ts) = ts

-- `autoInit && tool.initialize`
abbrev pub started : Bool → Option (Result (Unit {0})) → Result (Unit {0})
started false hook = ok tt
started true none = ok tt
started true (some r) = r

unfoldable pub store_started : Tool → Registry → Result (Unit {0}) → Registry × Result (Unit {0})
store_started tool r (ok _) = (JsMap.set tool.name tool r, ok tt)
store_started tool r (err e) = (r, err e)

unfoldable pub register_named : Tool → Bool → Registry → Text → Registry × Result (Unit {0})
unfolding store_started
register_named tool auto_init r [] =
    (r, err (thrown (codes "[ToolRegistry] Tool must have a valid metadata.name.")))
register_named tool auto_init r (c ∷ cs) = store_started tool r (started auto_init tool.initialize)

unfoldable pub register : Tool → Bool → Registry → Registry × Result (Unit {0})
unfolding register_named
register tool auto_init r = register_named tool auto_init r tool.name

-- An error of `cleanup` is caught.
unfoldable pub unregister : Text → Registry → Registry × Bool
unregister name r = (JsMap.delete name r, JsMap.has name r)

unfoldable pub get : Text → Registry → Option Tool
get name r = JsMap.get name r

unfoldable pub find : Text → Registry → List Tool
find capability r = filter (λ t. includes t.capabilities capability) (JsMap.values r)

abbrev pub same_option : Option Text → Text → Bool
same_option none b = false
same_option (some a) b = same_text a b

unfoldable pub find_by_category : Text → Registry → List Tool
find_by_category category r = filter (λ t. same_option t.category category) (JsMap.values r)

unfoldable pub find_by_tag : List Text → Registry → List Tool
find_by_tag tags r = filter (λ t. all (λ tag. includes (or_empty t.tags) tag) tags) (JsMap.values r)

unfoldable pub find_by_permission : Text → Registry → List Tool
find_by_permission permission r = filter (λ t. includes t.permissions permission) (JsMap.values r)

unfoldable pub is_compatible : List Text → List Text → Tool → Bool
is_compatible required granted t =
    any (λ cap. includes t.capabilities cap) required && all (λ p. includes granted p) t.permissions

unfoldable pub find_compatible : List Text → List Text → Registry → List Tool
unfolding is_compatible
find_compatible required granted r = filter (is_compatible required granted) (JsMap.values r)

unfoldable pub is_usable : Option Health → Bool
unfolding Health-discrete
is_usable none = true
is_usable (some s) =
    ite (Health-discrete s healthy) true false || ite (Health-discrete s unknown) true false

abbrev pub latency : Tool → ℕ
latency t = elim t.estimated_latency_ms [ none ↦ 0 | some n ↦ n ]

-- `candidates.sort` by the estimated latency, which is stable.
unfoldable pub insert_by_latency : Tool → List Tool → List Tool
insert_by_latency t [] = t ∷ []
insert_by_latency t (u ∷ us) =
    if leb (latency t) (latency u) then t ∷ u ∷ us else u ∷ insert_by_latency t us

unfoldable pub sort_by_latency : List Tool → List Tool
unfolding insert_by_latency
sort_by_latency [] = []
sort_by_latency (t ∷ ts) = insert_by_latency t (sort_by_latency ts)

unfoldable pub first : List Tool → Option Tool
first [] = none
first (t ∷ ts) = some t

unfoldable pub recommend : Text → Registry → Option Tool
unfolding find is_usable sort_by_latency first
recommend capability r =
    first (sort_by_latency (filter (λ t. is_usable t.health_state) (find capability r)))

-- `ToolHealthStatus`, and the tool with its new state.
pub record Status : Type 0 where
  pub name : Text
  pub healthy : Bool
  pub report : Report

-- `err?.message || "healthCheck threw an error"`
abbrev pub check_message : Text → Text
check_message [] = codes "healthCheck threw an error"
check_message (c ∷ cs) = c ∷ cs

unfoldable pub check_tool : Tool → ℕ → Option (Result RawReport) → Tool × Status
unfolding normalize_health_check_result Health-discrete
check_tool t now none = (
  t,
  record {
    name = t.name;
    healthy = true;
    report = record { state = unknown; message = none; checked_at = now };
  },
)
check_tool t now (some (ok raw)) =
    let report = normalize_health_check_result raw now in
    (
      record t { health_state = some report.state },
      record {
        name = t.name;
        healthy = ite (Health-discrete report.state healthy) true false;
        report = report;
      },
    )
check_tool t now (some (err e)) = (
  record t { health_state = some unavailable },
  record {
    name = t.name;
    healthy = false;
    report = record {
      state = unavailable;
      message = some (check_message (message e));
      checked_at = now;
    };
  },
)

unfoldable pub health_check : ℕ → Registry → Registry × List Status
unfolding check_tool
health_check now [] = ([], [])
health_check now ((key, t) ∷ r) =
    let (u, status) = check_tool t now t.health_check in
    let (rest, statuses) = health_check now r in ((key, u) ∷ rest, status ∷ statuses)

unfoldable pub allows : Text → Option Tool → Bool
allows permission none = false
allows permission (some t) = includes t.permissions permission

unfoldable pub has_permission : Text → Text → Registry → Bool
unfolding allows
has_permission name permission r = allows permission (JsMap.get name r)

abbrev pub succeeds : Option (Result (Unit {0})) → Bool
succeeds none = false
succeeds (some (ok _)) = true
succeeds (some (err e)) = false

unfoldable pub initialize_all : Registry → List Text
initialize_all r = map (λ t. t.name) (filter (λ t. succeeds t.initialize) (JsMap.values r))

unfoldable pub scoped : List Text → Registry → Registry
scoped allowed r = filter (λ e. includes allowed e.0) r

unfoldable pub size : Registry → ℕ
size r = length r
