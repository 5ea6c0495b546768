-- ===== src/Dynamixel/Driver/Init.antt =====
-- `dxl_hal_init` of firmware/src/dynamixel/dynamixel_hal.c, as far as it acquires what the driver needs
-- and gives it back when it fails.
use creature_controller.Common.{
  ℕ, ◌≡◌, ◌⊎◌, inl, inr, refl, Bool, true, false, not, List, [], ◌∷◌, ◌++◌, ◌==◌, if◌then◌else◌,
  if_both,
}

-- What is acquired: the memory of the context, the two PIO programs and state machines, a DMA channel,
-- the semaphore, the mutex and the alarm pool.
pub data Resource : Type 0 where
  context tx_program rx_program sm_tx sm_rx dma rx_complete_sem bus_mutex alarm_pool : Resource

abbrev number : Resource → ℕ
number context = 0
number tx_program = 1
number rx_program = 2
number sm_tx = 3
number sm_rx = 4
number dma = 5
number rx_complete_sem = 6
number bus_mutex = 7
number alarm_pool = 8

-- `vPortFree`, `pio_remove_program`, `pio_sm_unclaim` and so on: one such resource is no longer held.
unfoldable pub release : Resource → List Resource → List Resource
release r [] = []
release r (h ∷ held) = if number h == number r then held else h ∷ release r held

-- The labels at the end of `dxl_hal_init`, each of which falls through to the next.
unfoldable pub fail_free_ctx : List Resource → List Resource
fail_free_ctx held = release context held

unfoldable pub fail_remove_tx_program : List Resource → List Resource
fail_remove_tx_program held = fail_free_ctx (release tx_program held)

unfoldable pub fail_remove_rx_program : List Resource → List Resource
fail_remove_rx_program held = fail_remove_tx_program (release rx_program held)

unfoldable pub fail_unclaim_sm_tx : List Resource → List Resource
fail_unclaim_sm_tx held = fail_remove_rx_program (release sm_tx held)

unfoldable pub fail_unclaim_sm_rx : List Resource → List Resource
fail_unclaim_sm_rx held = fail_unclaim_sm_tx (release sm_rx held)

unfoldable pub fail_release_dma : List Resource → List Resource
fail_release_dma held = fail_unclaim_sm_rx (release dma held)

unfoldable pub fail_delete_sem : List Resource → List Resource
fail_delete_sem held = fail_release_dma (release rx_complete_sem held)

unfoldable pub fail_delete_bus_mutex : List Resource → List Resource
fail_delete_bus_mutex held = fail_delete_sem (release bus_mutex held)

-- `dxl_hal_init`, where `grants` says what can be had: whether it returns a context, and what is held.
unfoldable pub dxl_hal_init : (Resource → Bool) → List Resource → Bool × List Resource
dxl_hal_init grants held =
    let h1 = context ∷ held in
    let h2 = tx_program ∷ h1 in
    let h3 = rx_program ∷ h2 in
    let h4 = sm_tx ∷ h3 in
    let h5 = sm_rx ∷ h4 in
    let h6 = dma ∷ h5 in
    let h7 = rx_complete_sem ∷ h6 in
    let h8 = bus_mutex ∷ h7 in
    if not (grants context)
    then (false, held)
    else if not (grants tx_program)
    then (false, fail_free_ctx h1)
    else if not (grants rx_program)
    then (false, fail_remove_tx_program h2)
    else if not (grants sm_tx)
    then (false, fail_remove_rx_program h3)
    else if not (grants sm_rx)
    then (false, fail_unclaim_sm_tx h4)
    else if not (grants dma)
    then (false, fail_unclaim_sm_rx h5)
    else if not (grants rx_complete_sem)
    then (false, fail_release_dma h6)
    else if not (grants bus_mutex)
    then (false, fail_delete_sem h7)
    else if not (grants alarm_pool)
    then (false, fail_delete_bus_mutex h8)
    else (true, alarm_pool ∷ h8)

abbrev pub acquired : List Resource
acquired =
    alarm_pool ∷ bus_mutex ∷ rx_complete_sem ∷ dma ∷ sm_rx ∷ sm_tx ∷ rx_program ∷ tx_program
    ∷ context ∷ []

-- Whichever resource is missing: either there is a context, and exactly the nine resources are held in
-- addition; or there is none, and everything that was acquired on the way has been given back.
pub dxl_hal_init_lem :
    (grants : Resource → Bool) (held : List Resource)
    → let (done, held') = dxl_hal_init grants held in
      ((done ≡ true) × (held' ≡ acquired ++ held)) ⊎ ((done ≡ false) × (held' ≡ held))
unfolding dxl_hal_init release fail_free_ctx fail_remove_tx_program fail_remove_rx_program
    fail_unclaim_sm_tx fail_unclaim_sm_rx fail_release_dma fail_delete_sem fail_delete_bus_mutex
dxl_hal_init_lem grants held = if_both K (not (grants context)) failed after_context gone (
    if_both K (not (grants tx_program)) failed after_tx_program gone (
      if_both K (not (grants rx_program)) failed after_rx_program gone (
        if_both K (not (grants sm_tx)) failed after_sm_tx gone (
          if_both K (not (grants sm_rx)) failed after_sm_rx gone (
            if_both K (not (grants dma)) failed after_dma gone (
              if_both K (not (grants rx_complete_sem)) failed after_rx_complete_sem gone (
                if_both K (not (grants bus_mutex)) failed after_bus_mutex gone
                  (if_both K (not (grants alarm_pool)) failed ready gone (inl (refl, refl))))))))))
  where
    K : Bool × List Resource → Type 0
    K r = ((r.0 ≡ true) × (r.1 ≡ acquired ++ held)) ⊎ ((r.0 ≡ false) × (r.1 ≡ held))

    failed : Bool × List Resource
    failed = (false, held)

    gone : K failed
    gone = inr (refl, refl)

    ready : Bool × List Resource
    ready = (true, acquired ++ held)

    after_bus_mutex : Bool × List Resource
    after_bus_mutex = if not (grants alarm_pool) then failed else ready

    after_rx_complete_sem : Bool × List Resource
    after_rx_complete_sem = if not (grants bus_mutex) then failed else after_bus_mutex

    after_dma : Bool × List Resource
    after_dma = if not (grants rx_complete_sem) then failed else after_rx_complete_sem

    after_sm_rx : Bool × List Resource
    after_sm_rx = if not (grants dma) then failed else after_dma

    after_sm_tx : Bool × List Resource
    after_sm_tx = if not (grants sm_rx) then failed else after_sm_rx

    after_rx_program : Bool × List Resource
    after_rx_program = if not (grants sm_tx) then failed else after_sm_tx

    after_tx_program : Bool × List Resource
    after_tx_program = if not (grants rx_program) then failed else after_rx_program

    after_context : Bool × List Resource
    after_context = if not (grants tx_program) then failed else after_tx_program
