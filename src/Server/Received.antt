-- ===== src/Server/Received.antt =====
-- A message that `handle_connection` (src/server.c) reads whole and whose fields are all accepted.
use to_do_list_public.Common.{ℕ, ◌≤◌, ◌≡◌, ap, subst, ◌++◌, length}
use to_do_list_public.Text.{Bytes}
use to_do_list_public.Socket.{SockBufRead}
use to_do_list_public.Socket.Reader.{view, IsGood}
use to_do_list_public.Protocol.{
  Strtol, Fields, Scan, Scans, accepts, parse_fields, read_fields, max_req_fields, complete,
  Received, text_of,
}
use to_do_list_public.Protocol.Numbers.{Readable, readable_lem}
use to_do_list_public.Protocol.Receive.{Ends, read_fields-Ends}
use to_do_list_public.Server.{World}
use to_do_list_public.Server.Parse.{Incoming, parse_kv}
use to_do_list_public.Server.Connection.{Connected, handle_connection, respond_to}

-- what follows the fields of a message, with the reader behind them
pub record Whole (rest : Bytes) (m : Incoming) (fuel : ℕ) (w : World) (o : Connected) : Type 0 where
  pub reader : SockBufRead
  pub run : o ≡ respond_to fuel w (complete m reader)
  pub others : view reader ≡ rest
  pub good : IsGood reader

module _ (scan : Scan) (strtol : Strtol) (strtoul : Bytes → ℕ) (scans : Scans scan) (fuel : ℕ)
    (w : World) (m m' : Incoming) (r : SockBufRead) (fields : Fields) (rest : Bytes) where
  whole :
      (o : Received Incoming)
      → Ends rest (accepts m') o
      → Whole rest m' fuel w (respond_to fuel w o)
  whole o (q, (e, (v, g))) = record {
    reader = q;
    run = ap (respond_to fuel w) e;
    others = v;
    good = g;
  }

  pub handle-Whole :
      IsGood r
      → view r ≡ text_of fields ++ rest
      → Readable fields
      → length fields ≤ max_req_fields
      → parse_fields (parse_kv strtol strtoul) m fields ≡ accepts m'
      → Whole rest m' fuel w (handle_connection scan strtol strtoul fuel m r w)
  unfolding handle_connection
  handle-Whole g e readable few parsed =
      let run = read_fields scan (parse_kv strtol strtoul) max_req_fields r m in
      whole run (
        subst (λ o. Ends rest o run) parsed
          (read_fields-Ends scan (parse_kv strtol strtoul) scans max_req_fields r m fields rest g e
            (readable_lem fields readable) few))
