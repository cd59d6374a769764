-- ===== src/Manager/Steps.antt =====
-- A manager in use: the calls of src/Arduino_SNMP_Manager.cpp and src/SNMPGet.cpp that change it, the
-- requests that share its callbacks, and what they keep.
use arduino_snmp_manager.Ber.Address.{IpAddress}
use arduino_snmp_manager.Common.{Bool, List, arith, length, some, ℕ, ◌<◌, ◌≡◌}
use arduino_snmp_manager.Manager.{Manager, receive_packet}
use arduino_snmp_manager.Manager.Counts.{count-cancel, count-receive_packet, count-send_to}
use arduino_snmp_manager.Manager.Handlers.{add_handler, register}
use arduino_snmp_manager.Manager.Registered.{IsManager, add_handler-IsManager, register_lem}
use arduino_snmp_manager.Registration.{Callback, Destination, Heap}
use arduino_snmp_manager.Request.{GetRequest, cancel_pending_requests, send_to}
use arduino_snmp_manager.Tracking.Invariant.{step}

-- What the application may call, and a datagram that arrives.
pub data ManagerStep : Manager × Heap → Manager × Heap → Type 0 where
  registers :
      (destination : Destination) (ip : IpAddress) (name : List ℕ) (manager : Manager) (heap : Heap)
      → ManagerStep
          (manager, heap)
          (
            (register destination ip name manager heap).0,
            (register destination ip name manager heap).1,
          )
  adopts :
      (manager : Manager) (heap : Heap) (i : ℕ)
      → i < length heap.callbacks
      → ManagerStep (manager, heap) ((add_handler (some i) manager).0, heap)
  receives :
      (manager : Manager) (heap : Heap) (peer : IpAddress) (announced : ℕ) (packet : List ℕ)
      → ManagerStep (manager, heap) (manager, (receive_packet manager peer announced packet heap).0)
  sends :
      (manager : Manager) (heap : Heap) (transmits : IpAddress → ℕ → List ℕ → Bool) (ip : IpAddress)
      (request : GetRequest)
      → ManagerStep (manager, heap) (manager, (send_to transmits ip request heap).0)
  cancels :
      (manager : Manager) (heap : Heap) (callbacks : List ℕ)
      → ManagerStep (manager, heap) (manager, cancel_pending_requests callbacks heap)

pub data ManagerReaches : Manager × Heap → Manager × Heap → Type 0 where
  done : (s : Manager × Heap) → ManagerReaches s s
  further : (s t u : Manager × Heap) → ManagerStep s t → ManagerReaches t u → ManagerReaches s u

same_count :
    (registered : List ℕ) (callbacks callbacks' : List Callback)
    → length callbacks' ≡ length callbacks
    → IsManager registered callbacks
    → IsManager registered callbacks'
same_count registered callbacks callbacks' e v = record {
  once = v.once;
  known = λ i h. omega (arith, v.known i h, e);
}

step-IsManager :
    (s t : Manager × Heap)
    → ManagerStep s t
    → IsManager s.0.registered s.1.callbacks
    → IsManager t.0.registered t.1.callbacks
step-IsManager _ _ (registers destination ip name manager heap) v =
    (register_lem destination ip ip name name manager heap v).1
step-IsManager _ _ (adopts manager heap i h) v = add_handler-IsManager i manager heap h v
step-IsManager _ _ (receives manager heap peer announced packet) v =
    same_count manager.registered heap.callbacks _
      (count-receive_packet manager peer announced packet heap) v
step-IsManager _ _ (sends manager heap transmits ip request) v =
    same_count manager.registered heap.callbacks _ (count-send_to transmits ip request heap) v
step-IsManager _ _ (cancels manager heap callbacks) v =
    same_count manager.registered heap.callbacks _ (count-cancel callbacks heap) v

-- Whatever is registered, sent, cancelled and received: every registration is in the list once and
-- exists, where that holds to begin with.
pub reaches-IsManager :
    (s t : Manager × Heap)
    → ManagerReaches s t
    → IsManager s.0.registered s.1.callbacks
    → IsManager t.0.registered t.1.callbacks
reaches-IsManager _ _ (done s) v = v
reaches-IsManager _ _ (further s t u step rest) v =
    reaches-IsManager t u rest (step-IsManager s t step v)
