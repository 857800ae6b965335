-- ===== src/Instance/Run/Stuck.antt =====
-- A shutdown that waits for a listener which nobody will wake.
use lspwatch.Common.{◌↔◌, Bytes, ◌≡◌, ◌≢◌, ◌⊎◌, inl, refl, true, false, some, [], ◌∷◌, ◌++◌, arith}
use lspwatch.Instance.Run.Order.{IsOrdered, begin-IsOrdered, Reached-IsOrdered}
use lspwatch.Instance.Run.{
  begin, waiting_proxy, finished, Client, selecting, offering, switching, handling, raising,
  returned, Server, serving, ending, gone, client_forwards, client_raises, client_shutdown,
  server_raises, server_shutdown, main_proxy_done, main_watcher_done, watcher_returns,
  waiting_watcher, waiting_exporter, main_exporter_done, shutdown_call, System, Move, move,
  after_shutdown, Reached, here, moved,
}

-- A listener is blocked on a channel that only the loop of `Run` would serve: the client's listener
-- at the handshake, or either at a full channel of shutdown requests, or both at one with one
-- place.
abbrev pub IsBlocked : System → Type 0
IsBlocked s =
    (s.client ≡ offering)
    ⊎ ((s.client ≡ raising) × (s.requested ≡ true))
    ⊎ ((s.server ≡ ending) × (s.requested ≡ true))
    ⊎ ((s.client ≡ raising) × (s.server ≡ ending))

move-IsBlocked :
    (m : Move) (s u : System)
    → (s.main ≡ waiting_proxy) × IsBlocked s
    → move m s ≡ some u
    → (u.main ≡ waiting_proxy) × IsBlocked u
unfolding move
move-IsBlocked m s u b e = ground arith

-- Once `shutdownAndWait` waits for the listeners while one of them is blocked on a channel that
-- only the loop of `Run` serves, the program never ends: it waits there whatever else happens.
Reached-IsBlocked :
    {s t : System}
    → s.main ≡ waiting_proxy
    → IsBlocked s
    → Reached s t
    → (t.main ≡ waiting_proxy) × IsBlocked t
Reached-IsBlocked w b here = (w, b)
Reached-IsBlocked w b (moved {t} {u} m tr e) = move-IsBlocked m t u (Reached-IsBlocked w b tr) e

-- The shutdown is under way, and the process has exited.
record IsLeaving (s : System) : Type 0 where
  waits : s.main ≡ waiting_proxy
  told : s.shut_down ≡ true
  over : s.exited ≡ true

client_down :
    (c : Client) (s : System)
    → s.client ≡ c
    → IsLeaving s
    → c ≢ switching
    → ¬ IsBlocked s
    → (t : System) × Reached s t × IsLeaving t × (t.client ≡ returned) × ¬ IsBlocked t
unfolding move
client_down selecting s e v h b = (
  record s { client = returned },
  moved client_shutdown here (ground (arith, v.told)),
  ground arith,
  refl,
  ground arith,
)
client_down returned s e v h b = (s, here, v, e, b)
client_down offering s e v h b = absurd (b (inl e))
client_down switching s e v h b = absurd (h refl)
client_down handling s e v h b = (
  record s { client = returned },
  moved client_shutdown
      (moved {u = record s { client = selecting }} client_forwards here (ground arith))
      (ground (arith, v.told)),
  ground arith,
  refl,
  ground arith,
)
client_down raising s e v h b = (
  record s { client = returned; requested = true },
  moved client_shutdown
      (moved {u = record s { client = selecting; requested = true }} client_raises here
        (ground arith))
      (ground (arith, v.told)),
  ground arith,
  refl,
  ground arith,
)

server_down :
    (c : Server) (s : System)
    → s.server ≡ c
    → IsLeaving s
    → s.client ≡ returned
    → ¬ IsBlocked s
    → (t : System) × Reached s t × IsLeaving t × (t.client ≡ returned) × (t.server ≡ gone)
unfolding move
server_down serving s e v h b = (
  record s { server = gone },
  moved server_shutdown here (ground (arith, v.told)),
  ground arith,
  h,
  refl,
)
server_down ending s e v h b = (
  record s { server = gone; requested = true },
  moved server_raises here (ground arith),
  ground arith,
  h,
  refl,
)
server_down gone s e v h b = (s, here, v, h, e)

rest_down :
    (s : System)
    → IsLeaving s
    → s.client ≡ returned
    → s.server ≡ gone
    → (t : System) × Reached s t × (t.main ≡ finished)
unfolding move
rest_down s v h k = (
  record s {
    main = finished;
    watching = false;
    exporter = after_shutdown s.exporter;
    calls = s.calls ++ shutdown_call ∷ [];
  },
  moved main_exporter_done
      (moved
        {u = record s {
          main = waiting_exporter;
          watching = false;
          exporter = after_shutdown s.exporter;
          calls = s.calls ++ shutdown_call ∷ [];
        }}
        main_watcher_done
        (moved {u = record s { main = waiting_watcher; watching = false }} watcher_returns
          (moved {u = record s { main = waiting_watcher }} main_proxy_done here
            (ground (arith, v.waits)))
          (ground (arith, v.over)))
        refl)
      refl,
  refl,
)

Reached-trans : {s t u : System} → Reached s t → Reached t u → Reached s u
Reached-trans tr here = tr
Reached-trans tr (moved m tr' e) = moved m (Reached-trans tr tr') e

ends :
    (s : System)
    → IsLeaving s
    → s.client ≢ switching
    → ¬ IsBlocked s
    → (t : System) × Reached s t × (t.main ≡ finished)
ends s v h b =
    let (t, tr, v', c, b') = client_down s.client s refl v h b in
    let (u, tr', v'', c', g) = server_down t.server t refl v' c b' in
    let (w, tr'', e) = rest_down u v'' c' g in (w, Reached-trans tr (Reached-trans tr' tr''), e)

IsOrdered-IsLeaving :
    (s : System) → IsOrdered s → s.main ≡ waiting_proxy → IsLeaving s × (s.client ≢ switching)
IsOrdered-IsLeaving s v w = (
  record { waits = w; told = (v.told_when_waiting w).0; over = (v.told_when_waiting w).1 },
  λ q. ground (arith, v.switches_with_main q, w),
)

not_both : (t : System) → t.main ≡ waiting_proxy → ¬ (t.main ≡ finished)
not_both t w e = ground arith

-- A shutdown that waits for the listeners can still be completed exactly if none of them is blocked
-- on a channel that only the loop of `Run` serves; it is completed when `exporter.Wait` has
-- returned, which it can here at any time.
pub Reached-ends :
    (mode : Bytes) {s : System}
    → Reached (begin mode) s
    → s.main ≡ waiting_proxy
    → ((t : System) × Reached s t × (t.main ≡ finished)) ↔ (¬ IsBlocked s)
Reached-ends mode {s} tr w =
    let (v, h) = IsOrdered-IsLeaving s (Reached-IsOrdered (begin-IsOrdered mode) tr) w in
    (λ q. λ b. let (t, tr', e) = q in not_both t (Reached-IsBlocked w b tr').0 e, λ b. ends s v h b)
