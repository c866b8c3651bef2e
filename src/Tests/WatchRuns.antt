-- ===== src/Tests/WatchRuns.antt =====
-- Runs of the watch manager, and of the statuses and paths.
use pyxis.Prelude.{
  suc, codes, Bool, true, false, [], ◌∷◌, none, some, ◌≡◌, ◌&&◌, refl, length, rfind, ◌&&◌,
}
use pyxis.Paths.{starts_at_root, slash}
use pyxis.Watch.{
  Event, Watcher, Watchers, Fired, triger_fuel, triger_internal, triger_loop, cut, create,
}
use pyxis.Watch.Ancestors.{triger_total, triger_diverges}
use pyxis.Watch.Triger.{triger_lem, reached, without, number, number_of}

-- Two watchers of /a, one of them recursive, and one of /a/b.
abbrev watchers : Watchers
watchers =
    (codes "/a", record { path = codes "/a"; sid = 1; mask = 1; recursive = false })
    ∷ (codes "/a", record { path = codes "/a"; sid = 2; mask = 1; recursive = true })
    ∷ (codes "/a/b", record { path = codes "/a/b"; sid = 3; mask = 15; recursive = false })
    ∷ []

abbrev created : Event
created = record { node = codes "/a/b"; type = create }

created-rooted : starts_at_root created.node ≡ true
unfolding starts_at_root
created-rooted = refl

triger_total_example :
    (f : Fired) × (triger_fuel (suc (length created.node)) created watchers ≡ some f)
triger_total_example = triger_total created watchers created-rooted

-- The watchers of sessions 3 and 2 are notified, and that of session 1 stays.
run : Fired
unfolding triger_fuel triger_internal cut rfind
run = elim (triger_fuel 5 created watchers) [
  | none ↦ record { left = []; notified = [] }
  | some f ↦ f
]

run-made : triger_fuel 5 created watchers ≡ some run
unfolding run triger_loop
run-made = refl

triger_lem_example :
    (run.left ≡ without (reached created) watchers)
    × ((q : Watcher → Bool)
        → number q run.notified ≡ number_of (λ k w. reached created k w && q w) watchers)
triger_lem_example = triger_lem 5 created watchers run created-rooted run-made

abbrev nowhere : Event
nowhere = record { node = codes "a"; type = create }

no_slash : rfind slash nowhere.node ≡ none
unfolding rfind
no_slash = refl

triger_diverges_example : triger_fuel 100 nowhere watchers ≡ none
triger_diverges_example = triger_diverges 100 nowhere watchers no_slash (λ h. cc)
