-- ===== src/Bookkeeping/Graph/Traced.antt =====
-- rc/control/bookkeeping.py, `find_cycle_in_subsystem_graph`: the paths that the search returns.
use artdaq_daqinterface.Prelude.{
  ℕ, zero, suc, String, ◌=ₛ◌ as ◌==◌, ◌≡◌, refl, sym, ◌∙◌, ◌⊎◌, inl, inr, true, false, Option, none,
  some, List, [], ◌∷◌, Dict, isin, has, lookup, eq_refl, Bool-cases, isin_later,
}
use artdaq_daqinterface.Bookkeeping.Graph.{
  Subsystem, Marks, Search, clear, found, failed, extend, scan, enter, leave, scan_sources, dfs,
  or_next,
}
use artdaq_daqinterface.Bookkeeping.Graph.Acyclic.{Edge, Inv, Sound, enter-Inv, dfs-Sound}

-- Each name after the first is a known source of the one before it.
abbrev pub Walk : Dict Subsystem → String → List String → Type 0
Walk g v [] = Unit
Walk g v (w ∷ q) = Edge g v w × Walk g w q

abbrev pub last : String → List String → String
last v [] = v
last v (w ∷ q) = last w q

-- All but the last.
abbrev pub front : String → List String → List String
front v [] = []
front v (w ∷ q) = v ∷ front w q

-- A path out of the search: it closes in itself, or at a name on the stack.
pub record Traced (g : Dict Subsystem) (stack : List String) (v : String) (path : List String)
    : Type 0 where
  pub rest : List String
  pub spelled : path ≡ v ∷ rest
  pub walked : Walk g v rest
  pub closed : (isin (last v rest) (front v rest) ≡ true) ⊎ (isin (last v rest) stack ≡ true)

-- The same of the loop over the sources of `v`, whose path has a first step.
pub record Stepped (g : Dict Subsystem) (stack : List String) (v : String) (path : List String)
    : Type 0 where
  pub next : String
  pub rest : List String
  pub spelled : path ≡ v ∷ next ∷ rest
  pub step : Edge g v next
  pub walked : Walk g next rest
  pub closed :
      (isin (last next rest) (front next rest) ≡ true) ⊎ (isin (last next rest) stack ≡ true)

abbrev pub Reports : Dict Subsystem → (String → Marks → Search) → Type 0
Reports g visit =
    (t : String) (m : Marks) (path : List String)
    → has t g ≡ true
    → isin t m.visited ≡ false
    → Inv g m
    → visit t m ≡ found path
    → Traced g m.in_stack t path

Stepped-stack :
    {g : Dict Subsystem} {v : String} {path s s' : List String}
    → ((w : String) → isin w s' ≡ isin w s)
    → Stepped g s' v path
    → Stepped g s v path
Stepped-stack same st = record {
  next = st.next;
  rest = st.rest;
  spelled = st.spelled;
  step = st.step;
  walked = st.walked;
  closed = elim st.closed [
    | inl own ↦ inl own
    | inr up ↦ inr (sym (same (last st.next st.rest)) ∙ up)
  ];
}

-- What the recursive call gives, when it returned a path, and what the loop goes on with if not.
extend-found :
    (ss : String) (rest : Marks → Search) (r : Search) {path : List String}
    → extend ss rest r ≡ found path
    → ((p : List String) × (r ≡ found p) × (path ≡ ss ∷ p))
      ⊎ ((m₁ : Marks) × (r ≡ clear m₁) × (rest m₁ ≡ found path))
unfolding extend
extend-found ss rest (clear m₁) e = inr (m₁, refl, e)
extend-found ss rest (found p) e = inl (p, refl, cc)
extend-found ss rest (failed x) e = cc

module _ (g : Dict Subsystem) (visit : String → Marks → Search) (sound : Sound g visit)
    (reports : Reports g visit) (ss : String) (sub : Subsystem) (at : lookup ss g ≡ some sub) where
  scan-Stepped :
      (ts : List String) (m : Marks) (path : List String)
      → ((t : String) → isin t ts ≡ true → isin t sub.sources ≡ true)
      → Inv g m
      → scan visit g ss ts m ≡ found path
      → Stepped g m.in_stack ss path
  unfolding scan isin
  scan-Stepped [] m path listed inv e = cc
  scan-Stepped (t ∷ ts) m path listed inv e =
      let here : isin t sub.sources ≡ true = listed t (rw eq_refl) in
      let more = λ (m₁ : Marks) (inv₁ : Inv g m₁) (e₁ : scan visit g ss ts m₁ ≡ found path).
        scan-Stepped ts m₁ path (λ u h. listed u (isin_later u t ts h)) inv₁ e₁ in
      elim (Bool-cases (has t g)) [
        | inl k ↦
            let edge : Edge g ss t = record { from = sub; at = at; listed = here; known = k } in
            elim (Bool-cases (isin t m.visited)) [
              | inl v ↦ elim (Bool-cases (isin t m.in_stack)) [
                | inl s ↦ record {
                  next = t;
                  rest = [];
                  spelled = cc (rw (k, v, s) at e);
                  step = edge;
                  walked = tt;
                  closed = inr s;
                }
                | inr s ↦ more m inv (rw (k, v, s) at e)
              ]
              | inr v ↦
                  into t m k v edge inv path
                    (extend-found ss (λ (x : Marks). scan visit g ss ts x) (visit t m)
                      (rw (k, v) at e))
                    (λ m₁ inv₁ same e₁. Stepped-stack same (more m₁ inv₁ e₁))
            ]
        | inr k ↦ more m inv (rw k at e)
      ]
    where
      into :
          (t : String) (m : Marks) (k : has t g ≡ true) (v : isin t m.visited ≡ false)
          (edge : Edge g ss t) (inv : Inv g m) (path : List String) {rest : Marks → Search}
          → ((p : List String) × (visit t m ≡ found p) × (path ≡ ss ∷ p))
            ⊎ ((m₁ : Marks) × (visit t m ≡ clear m₁) × (rest m₁ ≡ found path))
          → ((m₁ : Marks)
              → Inv g m₁
              → ((w : String) → isin w m₁.in_stack ≡ isin w m.in_stack)
              → rest m₁ ≡ found path
              → Stepped g m.in_stack ss path)
          → Stepped g m.in_stack ss path
      into t m k v edge inv path (inl (p, r, e)) go =
          let tr = reports t m p k v inv r in
          record {
            next = t;
            rest = tr.rest;
            spelled = cc (e, tr.spelled);
            step = edge;
            walked = tr.walked;
            closed = tr.closed;
          }
      into t m k v edge inv path (inr (m₁, r, e)) go =
          let (inv₁, grows, seen) = sound t m m₁ k v inv r in go m₁ inv₁ grows.same_stack e

-- Leaving the frame of `ss`: a path that closes at `ss` itself closes in itself.
Stepped-Traced :
    {g : Dict Subsystem} {ss : String} {path s : List String}
    → Stepped g (ss ∷ s) ss path
    → Traced g s ss path
unfolding isin
Stepped-Traced {ss} {s} st =
    let end = last st.next st.rest in
    record {
      rest = st.next ∷ st.rest;
      spelled = st.spelled;
      walked = (st.step, st.walked);
      closed = elim (Bool-cases (ss == end)) [
        | inl e ↦ inl (rw e)
        | inr e ↦ elim st.closed [ inl own ↦ inl (rw e own) | inr up ↦ inr (rw e at up) ]
      ];
    }

leave-found :
    (ss : String) (r : Search) {path : List String} → leave ss r ≡ found path → r ≡ found path
unfolding leave
leave-found ss (clear m) e = cc
leave-found ss (found p) e = e
leave-found ss (failed x) e = cc

scan_sources-found :
    (visit : String → Marks → Search) (g : Dict Subsystem) (ss : String) (o : Option Subsystem)
    (m : Marks) {path : List String}
    → scan_sources visit g ss o m ≡ found path
    → (sub : Subsystem) × (o ≡ some sub) × (scan visit g ss sub.sources m ≡ found path)
unfolding scan_sources
scan_sources-found visit g ss none m e = cc
scan_sources-found visit g ss (some sub) m e = (sub, refl, e)

pub dfs-Reports : (fuel : ℕ) (g : Dict Subsystem) → Reports g (dfs fuel g)
unfolding dfs
dfs-Reports zero g ss m path known new inv e = absurd (cc)
dfs-Reports (suc fuel) g ss m path known new inv e =
    let inner = leave-found ss (scan_sources (dfs fuel g) g ss (lookup ss g) (enter ss m)) e in
    let (sub, at, loop) = scan_sources-found (dfs fuel g) g ss (lookup ss g) (enter ss m) inner in
    Stepped-Traced (
      unfold enter in
      scan-Stepped g (dfs fuel g) (dfs-Sound fuel g) (dfs-Reports fuel g) ss sub at sub.sources
        (enter ss m) path (λ t h. h) (enter-Inv g ss m new inv) loop)

pub or_next-found :
    (rest : Marks → Search) (r : Search) {path : List String}
    → or_next rest r ≡ found path
    → (r ≡ found path) ⊎ ((m₁ : Marks) × (r ≡ clear m₁) × (rest m₁ ≡ found path))
unfolding or_next
or_next-found rest (clear m₁) e = inr (m₁, refl, e)
or_next-found rest (found p) e = inl e
or_next-found rest (failed x) e = cc
