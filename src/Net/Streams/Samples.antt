-- ===== src/Net/Streams/Samples.antt =====
-- A short write and an aborted connection.
use tonio.Prelude.{ℕ, ◌≡◌, Bool, false, List, [], ◌∷◌, ◌==◌, arith}
use tonio.Net.Streams.{Sent, bytes, finished, send_all}
use tonio.Net.Streams.Sending.{send_all_total}

abbrev answers : List Sent
answers = bytes 2 ∷ bytes 1 ∷ bytes 1 ∷ []

send_all_total_example :
    let r = send_all false (5 ∷ 6 ∷ 7 ∷ []) answers in
    (r.progress ≡ finished) × (r.written ≡ 5 ∷ 6 ∷ 7 ∷ [])
send_all_total_example =
    send_all_total (5 ∷ 6 ∷ 7 ∷ []) answers (omega arith, (omega arith, (omega arith, tt)))
      (omega arith)

-- ECONNABORTED is ignorable.
abbrev ignorable : ℕ → Bool
ignorable e = e == 103
