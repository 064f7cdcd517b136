-- ===== src/Socket/Tests.antt =====
-- Runs of the reads on a connection.
use to_do_list_public.Common.{ℕ, ◌≡◌, ◌≤◌, some, [], ◌∷◌, ◌++◌, length, arith}
use to_do_list_public.Text.{Bytes, codes}
use to_do_list_public.Socket.{SockBufRead, init_buf_fd, sock_readline, failed}
use to_do_list_public.Socket.Reader.{view, arrived, arrived-IsGood}
use to_do_list_public.Socket.Lines.{
  ReadsLine, sock_readline-ReadsLine, sock_readline-length, sock_readline-failed,
}

abbrev two_lines : Bytes
two_lines = codes "ab" ++ (10 ∷ codes "cd")

abbrev reader : SockBufRead
reader = init_buf_fd (arrived two_lines)

sock_readline-ReadsLine_example : ReadsLine 8 (view reader) (sock_readline 8 reader)
sock_readline-ReadsLine_example = sock_readline-ReadsLine 8 reader (arrived-IsGood two_lines)

first : (r : SockBufRead) × (sock_readline 2 (init_buf_fd (failed ∷ [])) ≡ some (0 ∷ 0 ∷ [], r))
first = sock_readline-failed 2 [] (omega arith)

sock_readline-length_example : length {A = ℕ} (0 ∷ 0 ∷ []) ≤ 2
sock_readline-length_example =
    sock_readline-length 2 (init_buf_fd (failed ∷ [])) first.0 (0 ∷ 0 ∷ []) first.1
