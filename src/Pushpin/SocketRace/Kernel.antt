-- ===== src/Pushpin/SocketRace/Kernel.antt =====
-- What the program uses of the operating system, and the documented behaviour it relies on.
use security_audits.Base.{ℕ, ◌≡◌, Option, none, some, List, [], ◌∷◌, ◌++◌}

-- The calls on one path, for a process without privileges. `bind` fails where the path is taken;
-- `connect` fails where the mode forbids it; `accept` waits while nobody has connected. The other calls
-- that the program unwraps are taken to succeed; `received` is what a reader has by the end of the
-- stream, which the server drops after its one write.
pub record Socket {ℓ} (K : Type ℓ) : Type ℓ where
  pub remove_file : K → K
  pub umask : ℕ → K → K
  pub bind : K → Option K
  pub mode : K → ℕ
  pub set_mode : ℕ → K → K
  pub connect : K → Option ℕ × K
  pub accept : K → Option (ℕ × K)
  pub write : ℕ → List ℕ → K → K
  pub received : ℕ → K → List ℕ

-- `pending` are the connections that have not been accepted.
pub record Documented {ℓ} (K : Type ℓ) (os : Socket K) (pending : K → List ℕ) : Type ℓ where
  -- A new socket has the mode that the umask leaves, and no connections.
  pub mode-bind : (k k' : K) → os.bind (os.umask 0 k) ≡ some k' → os.mode k' ≡ 511
  pub pending-bind : (k k' : K) → os.bind k ≡ some k' → pending k' ≡ []
  -- A change of the mode leaves the connections alone.
  pub mode-set_mode : (m : ℕ) (k : K) → os.mode (os.set_mode m k) ≡ m
  pub pending-set_mode : (m : ℕ) (k : K) → pending (os.set_mode m k) ≡ pending k
  pub received-set_mode : (m c : ℕ) (k : K) → os.received c (os.set_mode m k) ≡ os.received c k
  -- A mode of 0 admits no connection. A connection joins the queue, and has received nothing.
  pub connect_forbidden : (k : K) → os.mode k ≡ 0 → os.connect k ≡ (none, k)
  pub connect_refused : (k k' : K) → os.connect k ≡ (none, k') → k' ≡ k
  pub mode-connect : (k k' : K) (c : ℕ) → os.connect k ≡ (some c, k') → os.mode k' ≡ os.mode k
  pub pending-connect :
      (k k' : K) (c : ℕ) → os.connect k ≡ (some c, k') → pending k' ≡ pending k ++ c ∷ []
  pub received-connect : (k k' : K) (c : ℕ) → os.connect k ≡ (some c, k') → os.received c k' ≡ []
  -- `accept` takes the first connection of the queue.
  pub accept_waits : (k : K) → pending k ≡ [] → os.accept k ≡ none
  pub accept_first : (k k' : K) (c : ℕ) → os.accept k ≡ some (c, k') → pending k ≡ c ∷ pending k'
  pub mode-accept : (k k' : K) (c : ℕ) → os.accept k ≡ some (c, k') → os.mode k' ≡ os.mode k
  pub received-accept :
      (k k' : K) (c d : ℕ) → os.accept k ≡ some (c, k') → os.received d k' ≡ os.received d k
  -- What is written arrives.
  pub received-write :
      (c : ℕ) (bs : List ℕ) (k : K) → os.received c (os.write c bs k) ≡ os.received c k ++ bs
  pub mode-write : (c : ℕ) (bs : List ℕ) (k : K) → os.mode (os.write c bs k) ≡ os.mode k
