-- ===== src/Instance/Run/Calls.antt =====
-- The calls of the exporter in a run of internal/lspwatch.go, whichever exporter it is.
use lspwatch.Common.{
  ◌≡◌, ◌≢◌, ◌⊎◌, refl, subst, false, some, List, [], ◌∷◌, ◌++◌, Bytes, sym, append-nil, ◌≤◌, length,
  arith,
}
use lspwatch.Instance.Run.{
  starting, confirming, waiting_exporter, finished, aborted, offering, switching, Exporter, idle,
  started, stopped, ExporterCall, start_call, proxy_emit, watcher_emit, shutdown_call, System, Move,
  exporter_starts, server_emits, watcher_samples, main_watcher_done, begin, move, Reached, here,
  moved,
}
use lspwatch.Instance.Run.Order.{IsOrdered, begin-IsOrdered, Reached-IsOrdered}

-- What an exporter may be asked, and what it is then: it is started once, gets durations only while
-- it runs and samples only while it was not shut down, and is shut down last.
abbrev pub Allowed : ExporterCall → Exporter → Type 0
Allowed start_call e = e ≡ idle
Allowed proxy_emit e = e ≡ started
Allowed watcher_emit e = e ≢ stopped
Allowed shutdown_call e = e ≢ stopped

abbrev pub after_call : ExporterCall → Exporter → Exporter
after_call start_call e = started
after_call shutdown_call e = stopped
after_call _ e = e

unfoldable pub Orderly : List ExporterCall → Exporter → Type 0
Orderly [] e = Unit
Orderly (c ∷ cs) e = Allowed c e × Orderly cs (after_call c e)

unfoldable pub after_calls : List ExporterCall → Exporter → Exporter
after_calls [] e = e
after_calls (c ∷ cs) e = after_calls cs (after_call c e)

after_calls-snoc :
    (cs : List ExporterCall) (c : ExporterCall) (e : Exporter)
    → after_calls (cs ++ c ∷ []) e ≡ after_call c (after_calls cs e)
unfolding after_calls
after_calls-snoc [] c e = refl
after_calls-snoc (d ∷ cs) c e = after_calls-snoc cs c (after_call d e)

Orderly-snoc :
    (cs : List ExporterCall) (c : ExporterCall) (e : Exporter)
    → Orderly cs e
    → Allowed c (after_calls cs e)
    → Orderly (cs ++ c ∷ []) e
unfolding Orderly after_calls
Orderly-snoc [] c e v a = (a, tt)
Orderly-snoc (d ∷ cs) c e (one, v) a = (one, Orderly-snoc cs c (after_call d e) v a)

-- What the calls have made of the exporter, against the state of the run.
record IsCalled (s : System) : Type 0 where
  orderly : Orderly s.calls idle
  current :
      s.main ≢ waiting_exporter
      → s.main ≢ finished
      → (after_calls s.calls idle ≡ s.exporter) × (s.exporter ≢ stopped)
  idle_when_starting : s.main ≡ starting → (s.exporter ≡ idle) × (s.client ≡ switching)
  switching_when_confirming : s.main ≡ confirming → (s.client ≡ switching) × (s.switched ≡ false)
  offering_first : s.client ≡ offering → s.switched ≡ false
  idle_before :
      s.switched ≡ false → (s.exporter ≡ idle) ⊎ (s.main ≡ confirming) ⊎ (s.main ≡ aborted)

-- The call that a move makes.
called : Move → List ExporterCall
called exporter_starts = start_call ∷ []
called server_emits = proxy_emit ∷ []
called watcher_samples = watcher_emit ∷ []
called main_watcher_done = shutdown_call ∷ []
called _ = []

abbrev AllAllowed : List ExporterCall → Exporter → Type 0
AllAllowed [] e = Unit
AllAllowed (c ∷ cs) e = Allowed c e

move-calls :
    (m : Move) (s u : System)
    → IsOrdered s
    → IsCalled s
    → move m s ≡ some u
    → (u.calls ≡ s.calls ++ called m) × AllAllowed (called m) (after_calls s.calls idle)
unfolding move called
move-calls m s u w v e = ground (arith, append-nil s.calls)

move-current :
    (m : Move) (s u : System)
    → IsOrdered s
    → IsCalled s
    → move m s ≡ some u
    → u.main ≢ waiting_exporter
    → u.main ≢ finished
    → (after_calls (s.calls ++ called m) idle ≡ u.exporter) × (u.exporter ≢ stopped)
unfolding move called
move-current m s u w v e h k = ground (
  arith,
  append-nil s.calls,
  after_calls-snoc s.calls start_call idle,
  after_calls-snoc s.calls proxy_emit idle,
  after_calls-snoc s.calls watcher_emit idle,
)

move-Orderly :
    (s : System) (cs : List ExporterCall)
    → IsCalled s
    → AllAllowed cs (after_calls s.calls idle)
    → length cs ≤ 1
    → Orderly (s.calls ++ cs) idle
move-Orderly s [] v a l = rw (append-nil s.calls) v.orderly
move-Orderly s (c ∷ []) v a l = Orderly-snoc s.calls c idle v.orderly a
move-Orderly s (c ∷ d ∷ cs) v a l = absurd (omega arith)

called-short : (m : Move) → length (called m) ≤ 1
unfolding called
called-short m = ground arith

-- What the moves of the handshake keep.
abbrev Handshakes : System → Type 0
Handshakes s =
    (s.main ≡ starting → (s.exporter ≡ idle) × (s.client ≡ switching))
    × (s.main ≡ confirming → (s.client ≡ switching) × (s.switched ≡ false))
    × (s.client ≡ offering → s.switched ≡ false)
    × (s.switched ≡ false → (s.exporter ≡ idle) ⊎ (s.main ≡ confirming) ⊎ (s.main ≡ aborted))

move-Handshakes :
    (m : Move) (s u : System) → IsOrdered s → IsCalled s → move m s ≡ some u → Handshakes u
unfolding move
move-Handshakes m s u w v e = ground arith

move-IsCalled :
    (m : Move) (s u : System) → IsOrdered s → IsCalled s → move m s ≡ some u → IsCalled u
move-IsCalled m s u w v e =
    let (calls, allowed) = move-calls m s u w v e in
    let (start, confirm, offer, before) = move-Handshakes m s u w v e in
    record {
      orderly =
          subst (λ cs. Orderly cs idle) (sym calls)
            (move-Orderly s (called m) v allowed (called-short m));
      current = λ h k.
          subst (λ cs. (after_calls cs idle ≡ u.exporter) × (u.exporter ≢ stopped)) (sym calls)
            (move-current m s u w v e h k);
      idle_when_starting = start;
      switching_when_confirming = confirm;
      offering_first = offer;
      idle_before = before;
    }

begin-IsCalled : (mode : Bytes) → IsCalled (begin mode)
unfolding begin Orderly after_calls
begin-IsCalled mode = ground arith

Reached-IsCalled : (mode : Bytes) {t : System} → Reached (begin mode) t → IsCalled t
Reached-IsCalled mode here = begin-IsCalled mode
Reached-IsCalled mode (moved {t} {u} m tr e) =
    move-IsCalled m t u (Reached-IsOrdered (begin-IsOrdered mode) tr) (Reached-IsCalled mode tr) e

-- In every interleaving of the run with the listeners and the watcher, the exporter is started at
-- most once, is asked to emit a duration only while it runs and a sample only while it was not shut
-- down, and is shut down last.
pub Reached-Orderly : (mode : Bytes) {t : System} → Reached (begin mode) t → Orderly t.calls idle
Reached-Orderly mode tr = (Reached-IsCalled mode tr).orderly
