-- ===== src/Core/Proxy/PassThrough/Unseen.antt =====
-- The end of the server's output in internal/core/proxy.go, behind the diverter pipe of
-- internal/io/io.go.
use lspwatch.Common.{◌≡◌, false, List, [], ◌∷◌}
use lspwatch.Io.Diverter.{ended}
use lspwatch.Core.Proxy.PassThrough.{Relay, RelayEvent, lsp_returns}

-- The listener for the server does not return, behind which it closes the pipe itself.
abbrev pub Listening : List RelayEvent → Type 0
Listening [] = Unit
Listening (lsp_returns ∷ es) = ⊥
Listening (_ ∷ es) = Listening es

-- The goroutine of the diverter pipe has ended, and the listener's pipe is open.
abbrev pub IsEnded : Relay → Type 0
IsEnded r = (r.pipe.held ≡ ended) × (r.pipe.second_closed ≡ false)
