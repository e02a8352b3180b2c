-- ===== src/EpBuffer/Tests.antt =====
-- Runs of the functions of ep_buffer.c.
use h2_client_proxy.Base.{◌≡◌, refl, List, [], ◌∷◌, arith}
use h2_client_proxy.EpBuffer.{EpBuffer, ep_buffer_read}
use h2_client_proxy.EpBuffer.Stream.{ep_buffer_read-take, ep_buffer_read-within_first}

abbrev first : EpBuffer
first = record { buf = 1 ∷ 2 ∷ 3 ∷ []; len_total = 3; len_sent = 1 }

abbrev second : EpBuffer
second = record { buf = 4 ∷ 5 ∷ []; len_total = 2; len_sent = 0 }

abbrev two_buffers : List EpBuffer
two_buffers = first ∷ second ∷ []

-- A read across the border: the second buffer is copied in part and stays as it was.
read_three : ep_buffer_read two_buffers 3 ≡ (2 ∷ 3 ∷ 4 ∷ [], 3, second ∷ [])
unfolding ep_buffer_read
read_three = refl

ep_buffer_read-take_example :
    ((ep_buffer_read two_buffers 3).0 ≡ 2 ∷ 3 ∷ 4 ∷ []) × ((ep_buffer_read two_buffers 3).1 ≡ 3)
ep_buffer_read-take_example = ep_buffer_read-take two_buffers 3 (omega arith)

ep_buffer_read-within_first_example : (ep_buffer_read two_buffers 1).2 ≡ two_buffers
ep_buffer_read-within_first_example =
    ep_buffer_read-within_first first (second ∷ []) 1 (omega arith)
