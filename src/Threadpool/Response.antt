-- ===== src/Threadpool/Response.antt =====
-- threadpool.c, the responses of a client: write_all, free_response and send_ordered_response.
pub mod Writes
pub mod Window
pub mod Flush
pub mod Come
pub mod Order
pub mod Missing
pub mod Delivery
pub mod Willing
pub mod Complete
pub mod Marks
use comp_p.Common.{
  ℕ, zero, suc, ◌+◌, ◌-◌, ◌%◌, Bool, true, false, not, ◌&&◌, ◌||◌, List, [], ◌∷◌, ◌++◌, Option,
  none, some, ◌==◌, ltb, leb, if◌then◌else◌, Bytes, take, drop,
}
use comp_p.CString.{c_str}
pub use comp_p.CString.Calls.{Write, interrupted, failed, wrote}
use comp_p.ServerCommon.{
  ClientState, Response, Request, empty_response, inc64, max_pending_responses, u64_mod,
}

-- The loop of write_all, on the bytes that remain and what the calls of write do: the bytes that
-- leave, whether all do, and the calls that are still to come. Where the calls end, so does the
-- stream: the last one counts as failed.
unfoldable pub write_all : List Write → Bytes → Bytes × Bool × List Write
write_all calls [] = ([], true, calls)
write_all [] (b ∷ bs) = ([], false, [])
write_all (interrupted ∷ calls) (b ∷ bs) = write_all calls (b ∷ bs)
write_all (failed ∷ calls) (b ∷ bs) = ([], false, calls)
write_all (wrote zero ∷ calls) (b ∷ bs) = ([], false, calls)
write_all (wrote (suc n) ∷ calls) (b ∷ bs) =
    let (out, ok, rest) = write_all calls (drop n bs) in (b ∷ take n bs ++ out, ok, rest)

unfoldable pub put_slot : ℕ → Response → (ℕ → Response) → ℕ → Response
put_slot k r slots j = if j == k then r else slots j

unfoldable pub free_response : ℕ → ClientState → ClientState
free_response k client = record client {
  pending_responses = put_slot k empty_response client.pending_responses;
}

abbrev pub slot_of : ℕ → ℕ
slot_of n = n % max_pending_responses

-- The response that leaves next, if it is there.
abbrev pub next_response : ClientState → Response
next_response client = client.pending_responses (slot_of client.responses_sent)

unfoldable pub is_stopped : ClientState → Bool
is_stopped client =
    let pending = next_response client in
    not pending.ready || not (pending.seq_num == client.responses_sent)

-- The loop of send_ordered_response, on fuel: the bytes written, the calls of write that are left,
-- and the client.
unfoldable pub flush : ℕ → List Write → ClientState → Bytes × List Write × ClientState
flush zero calls client = ([], calls, client)
flush (suc fuel) calls client =
    let (out, ok, rest) = write_all calls (c_str (next_response client).response_str) in
    let freed = free_response (slot_of client.responses_sent) client in
    let (more, last, final) =
      flush fuel rest (record freed { responses_sent = inc64 client.responses_sent }) in
    if is_stopped client
    then ([], calls, client)
    else if not ok
    then (out, rest, record freed { disconnected = true })
    else (out ++ more, last, final)

unfoldable pub is_closed : ClientState → Bool
is_closed client = elim client.fifo_s2c_fd [ none ↦ true | some fd ↦ client.disconnected ]

-- The response of a request is dropped if its place in the window is not free.
unfoldable pub is_out_of_window : ClientState → ℕ → Bool
is_out_of_window client seq =
    ltb seq client.responses_sent
    || (leb ((client.responses_sent + max_pending_responses) % u64_mod) seq
        || (client.pending_responses (slot_of seq)).ready)

unfoldable pub store_response : ℕ → Bytes → ClientState → ClientState
store_response seq str client = record client {
  pending_responses =
      put_slot (slot_of seq) (record { seq_num = seq; response_str = str; ready = true })
        client.pending_responses;
}

unfoldable pub send_ordered_response :
    List Write → Request → Bytes → ClientState → Bytes × List Write × ClientState
send_ordered_response calls request str client =
    if is_closed client
    then ([], calls, client)
    else if is_out_of_window client request.request_seq_num
    then ([], calls, client)
    else flush max_pending_responses calls (store_response request.request_seq_num str client)
