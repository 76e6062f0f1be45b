-- ===== src/Coordinator/Refines.antt =====
-- Runs of the coordinator (services/paisa/coordinator.py) as sequences of the steps of the sync
-- state's world: the rules by which a run refines them, one for each way to build a run.
use financial_dashboard.Prelude.{ℕ, ◌≡◌, refl, ◌∙◌, sym, ap, Option, String}
use financial_dashboard.Sync.Row.{Table, lease_stale, value_error, Result, ok, err}
use financial_dashboard.Sync.World.{World, Step, Reach, here, next}
use financial_dashboard.Coordinator.{
  Outcome, done, failed, Run, then_run, ◌>>=◌, pure, committed, commit, Site, stage, Surroundings,
  pause,
}

pub Reach-trans : {u v w : World} → Reach u v → Reach v w → Reach u w
Reach-trans p here = p
Reach-trans p (next q step) = next (Reach-trans p q) step

-- A world that the steps reach, whose table is the one that the run left; if the run came to its
-- end with `a`, what its token has captured is `Q a`.
pub record Ends {A : Type 0} (w : World) (token : String) (Q : A → Option ℕ)
    (out : Outcome A × Table) : Type 0 where
  pub world : World
  pub path : Reach w world
  pub same : world.table ≡ out.1
  pub noted : (a : A) → out.0 ≡ done a → world.captured token ≡ Q a

-- From every world in which the token has captured `o`, the run is a sequence of steps.
abbrev pub Refines : {A : Type 0} → String → Option ℕ → Run A → (A → Option ℕ) → Type 0
Refines token o m Q = (w : World) → w.captured token ≡ o → Ends w token Q (m w.table)

-- What happens at every place between transactions is steps that note nothing under the token.
abbrev pub Others : Surroundings → String → Type 0
Others env token =
    (site : Site) (w : World)
    → (v : World) × (Reach w v
        × (v.table ≡ env.between site w.table)
        × (v.captured token ≡ w.captured token))

module _ (token : String) where
  pub Refines-pure : {A : Type 0} {o : Option ℕ} (a : A) → Refines token o (pure a) (λ _. o)
  Refines-pure a w h = record { world = w; path = here; same = refl; noted = λ b e. h }

  pub Refines-stage :
      {A : Type 0} {o : Option ℕ} (x : Outcome A) → Refines token o (stage x) (λ _. o)
  Refines-stage x w h = record { world = w; path = here; same = refl; noted = λ b e. h }

  Ends-bind :
      {A B : Type 0} {Q : A → Option ℕ} {S : B → Option ℕ} (f : A → Run B) (w : World)
      (out : Outcome A × Table)
      → Ends w token Q out
      → ((a : A) → Refines token (Q a) (f a) S)
      → Ends w token S (then_run out f)
  Ends-bind {S} f w (failed e, table) r k = record {
    world = r.world;
    path = r.path;
    same = r.same;
    noted = λ b e'. cc;
  }
  Ends-bind {S} f w (done a, table) r k =
      let r' = k a r.world (r.noted a refl) in
      record {
        world = r'.world;
        path = Reach-trans r.path r'.path;
        same = r'.same ∙ ap (λ t. (f a t).1) r.same;
        noted = λ b e. r'.noted b (ap (λ t. (f a t).0) r.same ∙ e);
      }

  pub Refines->>= :
      {A B : Type 0} {o : Option ℕ} {Q : A → Option ℕ} {S : B → Option ℕ} (m : Run A)
      (f : A → Run B)
      → Refines token o m Q
      → ((a : A) → Refines token (Q a) (f a) S)
      → Refines token o (m >>= f) S
  Refines->>= m f r k w h = Ends-bind f w (m w.table) (r w h) k

  committed-table : {A : Type 0} (x : Result A × Table) → (committed x).1 ≡ x.1
  committed-table (ok a, table) = refl
  committed-table (err lease_stale, table) = refl
  committed-table (err value_error, table) = refl

  -- A transaction that is one step.
  pub Refines-commit :
      {A : Type 0} {o : Option ℕ} (op : Table → Result A × Table)
      → ((w : World) → w.captured token ≡ o → Step w (record w { table = (op w.table).1 }))
      → Refines token o (commit op) (λ _. o)
  Refines-commit op step w h = record {
    world = record w { table = (op w.table).1 };
    path = next here (step w h);
    same = sym (committed-table (op w.table));
    noted = λ a e. h;
  }

  pub Refines-pause :
      {o : Option ℕ} (env : Surroundings) (site : Site)
      → Others env token
      → Refines token o (pause env site) (λ _. o)
  unfolding pause
  Refines-pause env site others w h =
      let (v, steps) = others site w in
      record { world = v; path = steps.0; same = steps.1; noted = λ a e. steps.2 ∙ h }

-- The same with nothing said of what the token has captured at the end.
pub record Stops {A : Type 0} (w : World) (out : Outcome A × Table) : Type 0 where
  pub world : World
  pub path : Reach w world
  pub same : world.table ≡ out.1

abbrev pub Steps : {A : Type 0} → String → Option ℕ → Run A → Type 0
Steps token o m = (w : World) → w.captured token ≡ o → Stops w (m w.table)

module _ (token : String) where
  pub Refines-Steps :
      {A : Type 0} {o : Option ℕ} {Q : A → Option ℕ} (m : Run A)
      → Refines token o m Q
      → Steps token o m
  Refines-Steps m r w h = let e = r w h in record { world = e.world; path = e.path; same = e.same }

  Ends-Stops :
      {A B : Type 0} {Q : A → Option ℕ} (f : A → Run B) (w : World) (out : Outcome A × Table)
      → Ends w token Q out
      → ((a : A) → Steps token (Q a) (f a))
      → Stops w (then_run out f)
  Ends-Stops f w (failed e, table) r k = record { world = r.world; path = r.path; same = r.same }
  Ends-Stops f w (done a, table) r k =
      let r' = k a r.world (r.noted a refl) in
      record {
        world = r'.world;
        path = Reach-trans r.path r'.path;
        same = r'.same ∙ ap (λ t. (f a t).1) r.same;
      }

  pub Steps->>= :
      {A B : Type 0} {o : Option ℕ} {Q : A → Option ℕ} (m : Run A) (f : A → Run B)
      → Refines token o m Q
      → ((a : A) → Steps token (Q a) (f a))
      → Steps token o (m >>= f)
  Steps->>= m f r k w h = Ends-Stops f w (m w.table) (r w h) k

  -- What follows a stage may rely on what the stage answered.
  pub Steps-answered :
      {A B : Type 0} {o : Option ℕ} (x : Outcome A) (f : A → Run B)
      → ((a : A) → x ≡ done a → Steps token o (f a))
      → Steps token o (stage x >>= f)
  Steps-answered (done a) f k w h = k a refl w h
  Steps-answered (failed e) f k w h = record { world = w; path = here; same = refl }

-- A world that the steps reach, with that table.
abbrev pub Reaches : World → Table → Type 0
Reaches w table = (v : World) × (Reach w v × (v.table ≡ table))
