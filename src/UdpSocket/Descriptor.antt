-- ===== src/UdpSocket/Descriptor.antt =====
-- Every method of a UdpSocket but `open`, `close` and the moves leaves its descriptor alone.
use nettverk.Prelude.{ℕ, ◌≡◌, refl, Bytes, ℤ, pos, negsuc, arith, length}
use nettverk.Net.{SockAddr, SockOption, Os, RecvAnswer}
use nettverk.UdpSocket.{
  UdpSocket, send_to, after_send, send_loop, recv_from, after_recv, bind, set_option,
}

after_send-fd : (s : UdpSocket) (n : ℕ) (r : ℤ × ℕ) → (after_send s n r).0.fd ≡ s.fd
unfolding after_send
after_send-fd s n (pos r, e) = refl
after_send-fd s n (negsuc r, e) = refl

pub send_to-fd :
    (os : Os) (call : ℕ) (s : UdpSocket) (bytes : Bytes) (dest : SockAddr)
    → (send_to os call s bytes dest).0.fd ≡ s.fd
unfolding send_to
send_to-fd os call s bytes dest =
    let sent = after_send-fd s (length bytes) (send_loop (os.sendto call s.fd bytes dest)) in
    ground arith

after_recv-fd : (s : UdpSocket) (a : RecvAnswer) → (after_recv s a).0.fd ≡ s.fd
unfolding after_recv
after_recv-fd s (RecvAnswer.interrupted a) = after_recv-fd s a
after_recv-fd s (RecvAnswer.failed e) = refl
after_recv-fd s (RecvAnswer.received bytes from) = ground arith

pub recv_from-fd :
    (os : Os) (call : ℕ) (s : UdpSocket) (size : ℕ) → (recv_from os call s size).0.fd ≡ s.fd
unfolding recv_from
recv_from-fd os call s size =
    let taken = after_recv-fd s (os.recvfrom call s.fd size) in ground arith

pub bind-fd : (os : Os) (call : ℕ) (s : UdpSocket) (port : ℕ) → (bind os call s port).0.fd ≡ s.fd
unfolding bind
bind-fd os call s port = ground arith

pub set_option-fd :
    (os : Os) (call : ℕ) (s : UdpSocket) (option : SockOption)
    → (set_option os call s option).0.fd ≡ s.fd
unfolding set_option
set_option-fd os call s option = ground arith
