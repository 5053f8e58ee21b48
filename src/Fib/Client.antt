-- ===== src/Fib/Client.antt =====
-- lab4/client_test.c: the client, over what its user types and what it reads from the server.
pub mod Plain
pub mod Shown
use csci_4220_network_progra.Base.{
  ℕ, ◌+◌, Option, none, some, List, [], ◌∷◌, ◌++◌, ◌==◌, if◌then◌else◌, codes,
}
use csci_4220_network_progra.CString.{atoi, until_nul}
use csci_4220_network_progra.Fib.Session.{decimal, client_message}

-- The loop over `read`, which ends when it gives no byte.
unfoldable pub show_reads : List (List ℕ) → List ℕ
unfolding until_nul
show_reads [] = []
show_reads ([] ∷ ds) = []
show_reads ((c ∷ cs) ∷ ds) = until_nul (c ∷ cs) ++ show_reads ds

-- What the terminal shows in front of the answer; `first` is the prompt of the server, or nothing.
unfoldable pub opening : (server_ip port first : List ℕ) → List ℕ
unfolding until_nul
opening server_ip port first =
    codes "Connected to server "
    ++ (server_ip
        ++ (codes ":"
            ++ (decimal (atoi port) ++ (10 ∷ [] ++ (until_nul first ++ codes "Enter N: ")))))

abbrev pub bar : List ℕ
bar = codes "================\n"

-- What has gone to the server, and what the terminal shows.
pub record Session : Type 0 where
  pub written : List ℕ
  pub screen : List ℕ

-- `main` from the connection on. `none` is the exit with "Invalid input".
unfoldable pub client_main : (server_ip port first typed : List ℕ) → List (List ℕ) → Option Session
unfolding client_message opening show_reads
client_main server_ip port first typed reads = elim (client_message typed) [
  | none ↦ none
  | some msg ↦ some (record {
    written = msg;
    screen =
        opening server_ip port first
        ++ (codes "\nServer response:\n" ++ (bar ++ (show_reads reads ++ bar)));
  })
]
