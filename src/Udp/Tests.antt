-- ===== src/Udp/Tests.antt =====
-- src/udp_utils.rs: the clearing of a sample socket with two packets.
use netconnpool_rust.Base.{◌≡◌, refl, inl, false, List, ◌++◌, ◌≤◌, [], arith, length, ok}
use netconnpool_rust.Net.{Received}
use netconnpool_rust.Udp.{clear_udp_read_buffer}
use netconnpool_rust.Udp.Clearing.{
  packet_limit, clear_udp_read_buffer_lem, clear_udp_read_buffer_empties,
}
use netconnpool_rust.Samples.{moment, socket}

clear_udp_read_buffer_lem_example :
    let (t, r) = clear_udp_read_buffer moment.clear_elapsed socket 100 1 in
    (r ≡ ok tt)
    × (t.nonblocking ≡ false)
    × ((dropped : List Received) × (socket.incoming ≡ dropped ++ t.incoming)
        × (length dropped ≤ packet_limit 1))
clear_udp_read_buffer_lem_example =
    clear_udp_read_buffer_lem moment.clear_elapsed socket 100 1 refl refl

clear_udp_read_buffer_empties_example :
    (clear_udp_read_buffer moment.clear_elapsed socket 0 0).0.incoming ≡ []
clear_udp_read_buffer_empties_example =
    clear_udp_read_buffer_empties moment.clear_elapsed socket 0 0 refl refl (inl refl)
      (tt, (tt, tt)) (omega arith)
