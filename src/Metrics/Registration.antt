-- ===== src/Metrics/Registration.antt =====
-- internal/metrics/metrics.go: the registration of the instruments with the meter, under a
-- sync.Once. An instrument is what the meter is given for it; the descriptions are left out.
use pulsar_notifcation_pipel.Base.{
  ◌∙◌, zero, Bool-cases, if◌then◌else◌, ◌++◌, ℕ, suc, List, [], ◌∷◌, Bool, true, false, inl, inr,
  refl, ◌≡◌, Text, ascii,
}

pub data Kind : Type 0 where
  int64_counter int64_histogram float64_histogram : Kind

pub record Instrument : Type 0 where
  pub kind : Kind
  pub name : Text
  pub unit : Text

-- The instruments that the meter has made, oldest first, and whether the Once is done.
pub record Registry : Type 0 where
  pub once_done : Bool
  pub made : List Instrument

abbrev pub unregistered : Registry
unregistered = record { once_done = false; made = [] }

-- The call of one of the meter's three constructors. An option for the unit is given or not.
unfoldable make : Kind → Text → Text → List Instrument → List Instrument
make kind name unit made = made ++ record { kind = kind; name = name; unit = unit } ∷ []

-- The function under the Once.
unfoldable register : List Instrument → List Instrument
unfolding make
register made =
    let made1 = make int64_counter (ascii "pulsarnp.writer.submissions") [] made in
    let made2 =
      make float64_histogram (ascii "pulsarnp.writer.submit.duration") (ascii "s") made1 in
    let made3 =
      make float64_histogram (ascii "pulsarnp.writer.publish.duration") (ascii "s") made2 in
    let made4 = make int64_counter (ascii "pulsarnp.deliverer.consumed") [] made3 in
    let made5 = make int64_counter (ascii "pulsarnp.deliverer.outcomes") [] made4 in
    let made6 =
      make float64_histogram (ascii "pulsarnp.deliverer.provider.duration") (ascii "s") made5 in
    let made7 = make int64_histogram (ascii "pulsarnp.deliverer.attempts") [] made6 in
    make int64_counter (ascii "pulsarnp.deliverer.decrypt_failures") [] made7

unfoldable pub init_instruments : Registry → Registry
unfolding register
init_instruments r = if r.once_done then r else record { once_done = true; made = register r.made }

-- The registry after k calls.
unfoldable pub calls : ℕ → Registry → Registry
unfolding init_instruments
calls zero r = r
calls (suc k) r = calls k (init_instruments r)

init_instruments-again : (r : Registry) → init_instruments (init_instruments r) ≡ init_instruments r
unfolding init_instruments
init_instruments-again r = elim (Bool-cases r.once_done) [
  | inl done ↦ simp done
  | inr fresh ↦ simp fresh
]

-- However many calls there are, from the first on the registry is the one after the first call: each
-- instrument is made once.
pub calls-once : (k : ℕ) (r : Registry) → calls (suc k) r ≡ init_instruments r
unfolding calls
calls-once zero r = refl
calls-once (suc k) r = calls-once k (init_instruments r) ∙ init_instruments-again r
