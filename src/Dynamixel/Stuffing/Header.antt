-- ===== src/Dynamixel/Stuffing/Header.antt =====
-- Stuffing keeps the start of a packet, FF FF FD 00, out of the parameters.
use creature_controller.Common.{
  ℕ, ◌≡◌, refl, Bool, false, ◌&&◌, ◌||◌, List, [], ◌∷◌, arith, ◌==◌, get_or,
}
use creature_controller.Dynamixel.Stuffing.{completes_header, stuff}

abbrev starts_packet : List ℕ → Bool
starts_packet l =
    (get_or l 0 1 == 0xff)
    && (get_or l 1 1 == 0xff)
    && (get_or l 2 1 == 0xfd)
    && (get_or l 3 1 == 0)

-- Does FF FF FD 00 stand anywhere in the bytes?
abbrev pub contains_packet_start : List ℕ → Bool
contains_packet_start [] = false
contains_packet_start (b ∷ rest) = starts_packet (b ∷ rest) || contains_packet_start rest

-- FF FF FD among parameters is followed by FD.
stuff_starts : (b : ℕ) (ps rev : List ℕ) → starts_packet (stuff rev (b ∷ ps)) ≡ false
unfolding stuff completes_header
stuff_starts b [] rev = ground arith
stuff_starts b (c ∷ []) rev = ground arith
stuff_starts b (c ∷ d ∷ ps) rev = ground arith

-- A receiver that looks for the start of a packet never finds one inside stuffed parameters,
-- whatever the parameters are.
pub stuff_hides_packet_start : (ps rev : List ℕ) → contains_packet_start (stuff rev ps) ≡ false
unfolding stuff
stuff_hides_packet_start [] rev = refl
stuff_hides_packet_start (b ∷ ps) rev =
    ground (arith, stuff_starts b ps rev, stuff_hides_packet_start ps (b ∷ rev))
