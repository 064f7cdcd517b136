-- ===== src/Manager/Receive.antt =====
-- A message of a local fault detector at the replication manager (src/replication_manager.c):
-- `parse_fault_detector_kv` and `handle_fault_detector_message`.
use to_do_list_public.Common.{
  ℕ, ◌-◌, ◌≤◌, ◌≡◌, refl, ap, ◌∙◌, subst, true, ℤ, pos, minus_one, [], ◌∷◌, ◌++◌, if◌then◌else◌,
  get_or, length, arith,
}
use to_do_list_public.Text.{Bytes, codes, dec, dec_int}
use to_do_list_public.State.{state_code}
use to_do_list_public.Socket.{SockBufRead}
use to_do_list_public.Socket.Reader.{view, IsGood}
use to_do_list_public.Protocol.{
  Strtol, str_to_int, is_int, is_key, Fields, text_of, Scan, Scans, Parsed, accepts, int_field,
  max_req_fields, Received, read_outside, ended, too_many, malformed, refused, complete,
  read_fields, parse_fields,
}
use to_do_list_public.Protocol.Int32.{Reads, str_to_int_dec}
use to_do_list_public.Protocol.Numbers.{Readable, last, readable_lem, int_before}
use to_do_list_public.Protocol.Receive.{Ends, read_fields-Ends, parse_fields-step, parse_fields-nil}
use to_do_list_public.Server.Parse.{bits, state_of}
use to_do_list_public.Server.Keys.{bits_lem}
use to_do_list_public.Response.Words.{state_of-code}
use to_do_list_public.Manager.{handle_state}
use to_do_list_public.Manager.Data.{
  ReplicaState, running, faulted, sent_startup_req, other_replica_state, replica_code,
  ManagerMessage, Cmd, pure, fault,
}
use Prim.Native.String.{String}

-- the enumerator of some bits
unfoldable pub replica_of : ℕ → ReplicaState
replica_of n = get_or (running ∷ faulted ∷ sent_startup_req ∷ []) n (other_replica_state (n - 3))

unfoldable pub parse_fault_detector_kv :
    Strtol → ManagerMessage → Bytes × Bytes → Parsed ManagerMessage
parse_fault_detector_kv strtol m (key, value) =
    let int : String → (ℤ → ManagerMessage) → Parsed ManagerMessage =
      λ why f. int_field why m (str_to_int strtol value) f in
    if is_key key "Replica ID"
    then int "replica_id conversion failed; Malformed req!!!" (λ v. record m { replica_id = v })
    else (if is_key key "Message Type"
        then int "Msg type Conversion failed!!!" (λ v. record m { state = replica_of (bits v) })
        else (if is_key key "Server state"
            then int "Server state Conversion failed!!!"
                (λ v. record m { server_state = state_of (bits v) })
            else accepts m))

abbrev pub after_message : Received ManagerMessage → Cmd ℤ
after_message read_outside m = fault
after_message (ended msg) m = pure minus_one m
after_message (too_many msg) m = pure minus_one m
after_message (malformed msg) m = pure minus_one m
after_message (refused why msg) m = pure minus_one m
after_message (complete msg r) m = handle_state msg m

-- `msg` is what stands in the memory of `fault_detector_ctx`, which is not initialised.
unfoldable pub handle_fault_detector_message : Scan → Strtol → ManagerMessage → SockBufRead → Cmd ℤ
handle_fault_detector_message scan strtol msg r =
    after_message (read_fields scan (parse_fault_detector_kv strtol) max_req_fields r msg)

-- a report, as the local fault detector writes it
unfoldable pub report_fields : ManagerMessage → Fields
report_fields msg =
    (codes "Replica ID", dec_int msg.replica_id)
    ∷ (codes "Message Type", dec (replica_code msg.state))
    ∷ (codes "Server state", dec (state_code msg.server_state))
    ∷ []

replica_of-code : (s : ReplicaState) → replica_of (replica_code s) ≡ s
unfolding replica_of
replica_of-code s = ground arith

module _ (strtol : Strtol) (reads : Reads strtol) (old : ManagerMessage) (z : ℤ)
    (h : is_int z ≡ true) where
  id_lem :
      parse_fault_detector_kv strtol old (codes "Replica ID", dec_int z)
      ≡ accepts (record old { replica_id = z })
  unfolding parse_fault_detector_kv
  id_lem = rw (str_to_int_dec strtol reads z h) refl

  type_lem :
      parse_fault_detector_kv strtol old (codes "Message Type", dec_int z)
      ≡ accepts (record old { state = replica_of (bits z) })
  unfolding parse_fault_detector_kv
  type_lem = rw (str_to_int_dec strtol reads z h) refl

  state_lem :
      parse_fault_detector_kv strtol old (codes "Server state", dec_int z)
      ≡ accepts (record old { server_state = state_of (bits z) })
  unfolding parse_fault_detector_kv
  state_lem = rw (str_to_int_dec strtol reads z h) refl

module _ (scan : Scan) (strtol : Strtol) (scans : Scans scan) (reads : Reads strtol)
    (msg old : ManagerMessage) (int_id : is_int msg.replica_id ≡ true)
    (int_state : is_int (pos (replica_code msg.state)) ≡ true)
    (int_server : is_int (pos (state_code msg.server_state)) ≡ true) where
  same :
      record msg {
        state = replica_of (bits (pos (replica_code msg.state)));
        server_state = state_of (bits (pos (state_code msg.server_state)));
      }
      ≡ msg
  same =
      ap
        (λ x. record msg {
          state = x;
          server_state = state_of (bits (pos (state_code msg.server_state)));
        })
        (ap replica_of (bits_lem (replica_code msg.state) int_state) ∙ replica_of-code msg.state)
      ∙ ap (λ x. record msg { server_state = x })
          (ap state_of (bits_lem (state_code msg.server_state) int_server)
            ∙ state_of-code msg.server_state)

  parse-report : parse_fields (parse_fault_detector_kv strtol) old (report_fields msg) ≡ accepts msg
  unfolding report_fields dec_int
  parse-report =
      parse_fields-step (parse_fault_detector_kv strtol) _ _ _ _ _
        (id_lem strtol reads _ msg.replica_id int_id)
        (parse_fields-step (parse_fault_detector_kv strtol) _ _ _ _ _
          (type_lem strtol reads _ (pos (replica_code msg.state)) int_state)
          (parse_fields-step (parse_fault_detector_kv strtol) _ _ _ _ _
            (state_lem strtol reads _ (pos (state_code msg.server_state)) int_server)
            (parse_fields-nil (parse_fault_detector_kv strtol) _ ∙ ap accepts same)))

  readable : Readable (report_fields msg)
  unfolding report_fields dec_int
  readable = int_before _ _ refl msg.replica_id (omega arith) int_id (
      int_before _ _ refl (pos (replica_code msg.state)) (omega arith) int_state
        (int_before _ _ refl (pos (state_code msg.server_state)) (omega arith) int_server last))

  three : length (report_fields msg) ≤ max_req_fields
  unfolding report_fields
  three = omega arith

  handled_report :
      (rest : Bytes) (o : Received ManagerMessage)
      → Ends rest (accepts msg) o
      → after_message o ≡ handle_state msg
  handled_report rest o (q, (e, h)) = ap after_message e

  -- The manager that reads a report of a local fault detector, on a connection without failures, however
  -- it arrives and whatever follows it, handles the states in it as the ones of the replica in it.
  -- The three numbers are ones of an `int`, `strtol` reads what `%d` prints, and `sscanf` takes the
  -- lines apart.
  pub handle_report :
      (r : SockBufRead) (rest : Bytes)
      → IsGood r
      → view r ≡ text_of (report_fields msg) ++ rest
      → handle_fault_detector_message scan strtol old r ≡ handle_state msg
  unfolding handle_fault_detector_message
  handle_report r rest good e =
      let run = read_fields scan (parse_fault_detector_kv strtol) max_req_fields r old in
      handled_report rest run (
        subst (λ o. Ends rest o run) parse-report
          (read_fields-Ends scan (parse_fault_detector_kv strtol) scans max_req_fields r old
            (report_fields msg) rest good e (readable_lem (report_fields msg) readable) three))
