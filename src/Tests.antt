-- ===== src/Tests.antt =====
-- Examples of the small parts: versions, rate limiters, golden tickets and message bodies.
use saito_rust_workspace.Prelude.{ℕ, ◌-◌, min, ◌≡◌, some, List, [], ◌∷◌, arith, length}
use saito_rust_workspace.Bytes.{zeros}
use saito_rust_workspace.Version.{Version, partial_cmp, compare_numbers}
use saito_rust_workspace.Version.Codec.{IsVersion}
use saito_rust_workspace.Version.Order.{partial_cmp-rank, rank}
use saito_rust_workspace.RateLimiter.{RateLimiter}
use saito_rust_workspace.RateLimiter.Window.{requests, requests-same_window, requests-new_window}
use saito_rust_workspace.GoldenTicket.{GoldenTicket}
use saito_rust_workspace.Message.{BlockchainRequest, ApiMessage}

abbrev old_version : Version
old_version = record { major = 1; minor = 2; patch = 300 }

abbrev new_version : Version
new_version = record { major = 1; minor = 3; patch = 4 }

old_version-IsVersion : IsVersion old_version
old_version-IsVersion = record { major = omega arith; minor = omega arith; patch = omega arith }

new_version-IsVersion : IsVersion new_version
new_version-IsVersion = record { major = omega arith; minor = omega arith; patch = omega arith }

order_example :
    partial_cmp old_version new_version
    ≡ some (compare_numbers (rank old_version) (rank new_version))
order_example = partial_cmp-rank old_version new_version old_version-IsVersion new_version-IsVersion

abbrev limiter : RateLimiter
limiter = record { limit = 3; window = 1000; request_count = 0; last_request_time = 5000 }

abbrev times : List ℕ
times = 5001 ∷ 5500 ∷ 6000 ∷ []

limiter_example :
    (requests limiter times).1 ≡ min (length times) (limiter.limit - 1 - limiter.request_count)
limiter_example =
    requests-same_window limiter times (omega arith) (omega arith, (omega arith, (omega arith, tt)))

abbrev later : List ℕ
later = 9100 ∷ 9200 ∷ 9300 ∷ []

window_example :
    (requests limiter (9000 ∷ later)).1 ≡ min (length {A = ℕ} (9000 ∷ later)) limiter.limit
window_example =
    requests-new_window limiter 9000 later (omega arith) (omega arith)
      (omega arith, (omega arith, (omega arith, tt)))

abbrev ticket : GoldenTicket
ticket = record { target = zeros 32; random = zeros 32; public_key = zeros 33 }

abbrev asked : BlockchainRequest
asked = record { latest_block_id = 12; latest_block_hash = zeros 32; fork_id = zeros 32 }

abbrev api : ApiMessage
api = record { msg_index = 70000; content = 1 ∷ 2 ∷ [] }
