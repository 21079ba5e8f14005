-- ===== src/Manager/Create.antt =====
-- gateway/manager.go, NewManager: what a manager is like when it has been made.
use sandwich_producer.Base.{
  ℤ, pos, ◌≡◌, ◌≢◌, refl, ◌<ℤ◌, List, [], ◌∷◌, Option, none, some, String, eq_iff, str_eq, arith,
  Returns, ret, panic, nil_map_write, GoError, ◌>>=◌, pos_part, get, int_key, false,
}
use sandwich_producer.Limiter.Concurrency.{ConcurrencyLimiter, new_concurrency_limiter, fill}
use sandwich_producer.Client.{new_client}
use sandwich_producer.Buckets.View.{IsValid, new-IsValid}
use sandwich_producer.ShardGroup.Rotation.{Holds}
use sandwich_producer.Manager.{
  Features, Configuration, Blacklist, Manager, Services, with_defaults, fill_blacklist,
  connect_services, build_manager, new_manager, empty_registry,
}

-- A manager that is ready to be opened with a configuration: it has the configuration and a client
-- with its token, a positive number of identify tickets, which is the configuration's, a positive
-- number of heartbeats to miss, a registry without groups and a valid store of buckets.
pub record IsReady (c : Configuration) (m : Manager) : Type 0 where
  pub configured : m.configuration ≡ c
  pub token_given : m.client ≡ new_client c.token
  pub empty : m.registry ≡ empty_registry
  pub some_ticket : pos 0 <ℤ m.ready_limiter.limit
  pub all_tickets : m.ready_limiter.limit ≡ c.max_concurrent_identifies
  pub some_failures : pos 0 <ℤ m.configuration.max_heartbeat_failures
  pub no_groups : Holds 0 0 m.registry
  pub buckets_valid : IsValid m.buckets

new_limiter :
    (limit : ℤ)
    → pos 0 <ℤ limit
    → (l : ConcurrencyLimiter) × (new_concurrency_limiter limit ≡ ret l) × (l.limit ≡ limit)
unfolding new_concurrency_limiter
new_limiter limit h = (
  record { limit = limit; tickets = fill (pos_part limit) 0 []; in_progress = pos 0 },
  ground arith,
  refl,
)

fill_blacklist-nil :
    (values : List String) (m : Blacklist) → values ≡ [] → fill_blacklist values m ≡ ret m
unfolding fill_blacklist
fill_blacklist-nil [] m e = refl
fill_blacklist-nil (v ∷ values) m e = cc

pub empty-Holds : Holds 0 0 empty_registry
unfolding get
empty-Holds = record {
  two_places = refl;
  counted = refl;
  current = λ h. absurd (omega arith);
  in_heap = λ h. absurd (omega arith);
  only = λ j _ _. refl;
}

-- What NewManager returns: a ready manager, and the first failure among the services.
abbrev pub IsMade : Services → Configuration → Option Manager × Option GoError → Type 0
IsMade s c x = ((m : Manager) × (x.0 ≡ some m) × IsReady c m) × (x.1 ≡ connect_services s c)

build_manager-IsMade :
    (s : Services) (f : Features) (c : Configuration)
    → pos 0 <ℤ c.max_concurrent_identifies
    → pos 0 <ℤ c.max_heartbeat_failures
    → c.event_blacklist_values ≡ []
    → c.produce_blacklist_values ≡ []
    → Returns (IsMade s c) (build_manager s f c)
unfolding build_manager
build_manager-IsMade s f c tickets failures no_events no_produce =
    let (l, made, limited) = new_limiter c.max_concurrent_identifies tickets in
    rw
      (
        made,
        ◌>>=◌,
        fill_blacklist-nil c.event_blacklist_values c.event_blacklist no_events,
        fill_blacklist-nil c.produce_blacklist_values c.produce_blacklist no_produce,
      )
      (
        (
          _,
          refl,
          record {
            configured = refl;
            token_given = refl;
            empty = refl;
            some_ticket = ground arith;
            all_tickets = limited;
            some_failures = failures;
            no_groups = empty-Holds;
            buckets_valid = new-IsValid;
          },
        ),
        refl,
      )

-- Without blacklists NewManager makes, from every configuration with a token, a manager that is ready
-- to be opened with it, its defaults filled in, and reports the first failure among its three
-- services.
pub new_manager-IsReady :
    (s : Services) (f : Features) (c : Configuration)
    → c.token ≢ ""
    → c.event_blacklist_values ≡ []
    → c.produce_blacklist_values ≡ []
    → Returns (IsMade s (with_defaults c)) (new_manager s f c)
unfolding new_manager with_defaults
new_manager-IsReady s f c given no_events no_produce =
    rw str_ne (
      build_manager-IsMade s f (with_defaults c) (ground arith) (ground arith) no_events no_produce)
  where
    str_ne : str_eq c.token "" ≡ false
    str_ne = ground (arith, eq_iff c.token "")

-- A configuration whose event blacklist has entries while its map is nil, as it is after the
-- configuration has been read, makes NewManager panic.
pub new_manager-nil_blacklist :
    (s : Services) (f : Features) (c : Configuration) (v : String) (values : List String)
    → c.token ≢ ""
    → c.event_blacklist ≡ none
    → c.event_blacklist_values ≡ v ∷ values
    → new_manager s f c ≡ panic nil_map_write
unfolding new_manager build_manager with_defaults fill_blacklist new_concurrency_limiter
new_manager-nil_blacklist s f c v values given nil entries = ground (arith, eq_iff c.token "")
