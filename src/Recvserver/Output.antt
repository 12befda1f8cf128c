-- ===== src/Recvserver/Output.antt =====
-- What recvserver.c shows of a client.
use mimino.Base.{
  ℕ, zero, suc, ◌+◌, ◌<◌, true, Bytes, List, [], ◌∷◌, ◌++◌, codes, decimal, ltb, length, if_true,
  ◌≡◌, refl, sym, ap, ◌∙◌, arith, All, append_assoc,
}
use mimino.Dump.{hex_cell, hex_cells, text_cells, padding, hex_dump_line}
use mimino.Recvserver.{
  char_cell, char_cells, print_recvd_data, Received, bytes, interrupted, Ending, ended, Session,
  after, bufsize, recv_loop, Closed, closed, retried, close_loop, close_client, end_client,
  serve_client,
}

abbrev session : Bytes → Ending → Session
session output ending = record { output = output; closes = 0; ending = ending }

char_cells-hex_cells : (buf : Bytes) → All (λ c. c < 128) buf → char_cells buf ≡ hex_cells buf
unfolding char_cells char_cell hex_cells hex_cell
char_cells-hex_cells [] h = refl
char_cells-hex_cells (c ∷ buf) (h, hs) =
    let ascii : ltb c 128 ≡ true = ground arith in
    ap (λ l. l ++ char_cells buf) (if_true (ltb c 128) _ _ ascii)
    ∙ ap (hex_cell c ++◌) (char_cells-hex_cells buf hs)

-- Of bytes below 128, `print_recvd_data` shows their number and then the line of `hex_dump_line`.
pub print_recvd_data-hex_dump_line :
    (buf : Bytes) (size : ℕ)
    → All (λ c. c < 128) buf
    → print_recvd_data buf size
      ≡ codes "recv()d " ++ (decimal (length buf) ++ (codes " bytes: " ++ hex_dump_line buf size))
unfolding print_recvd_data hex_dump_line
print_recvd_data-hex_dump_line buf size ascii =
    ap
      (λ l.
        codes "recv()d "
        ++ (decimal (length buf)
            ++ (codes " bytes: "
                ++ (text_cells buf
                    ++ (padding (length buf) size ++ (codes " | " ++ (l ++ codes "\n")))))))
      (char_cells-hex_cells buf ascii)

-- results behind some interruptions
abbrev pub interruptions : ℕ → List Received → List Received
interruptions zero results = results
interruptions (suc n) results = interrupted ∷ interruptions n results

-- The results of `recv` for a client that sends these parts and closes: before each result are some
-- interruptions.
abbrev pub results_of : List (ℕ × Bytes) → ℕ → List Received → List Received
results_of [] last rest = interruptions last (bytes [] ∷ rest)
results_of (p ∷ parts) last rest = interruptions p.0 (bytes p.1 ∷ results_of parts last rest)

-- what is shown of the parts
abbrev pub shown : List (ℕ × Bytes) → Bytes
shown [] = []
shown (p ∷ parts) = print_recvd_data p.1 bufsize ++ shown parts

-- results of `close` that are retried, and the one that ends the loop
abbrev pub closes_after : ℕ → Closed → List Closed → List Closed
closes_after zero last rest = last ∷ rest
closes_after (suc n) last rest = retried ∷ closes_after n last rest

recv_loop-interruptions :
    (n : ℕ) (results : List Received) → recv_loop (interruptions n results) ≡ recv_loop results
unfolding recv_loop
recv_loop-interruptions zero results = refl
recv_loop-interruptions (suc n) results = recv_loop-interruptions n results

recv_loop-part :
    (part : Bytes) (results : List Received)
    → 0 < length part
    → recv_loop (bytes part ∷ results) ≡ after (print_recvd_data part bufsize) (recv_loop results)
unfolding recv_loop
recv_loop-part [] results h = absurd (omega arith)
recv_loop-part (c ∷ part) results h = refl

recv_loop-results :
    (parts : List (ℕ × Bytes)) (last : ℕ) (rest : List Received)
    → All (λ p. 0 < length p.1) parts
    → recv_loop (results_of parts last rest)
      ≡ record { output = shown parts ++ codes "recv() returned 0\n"; closes = 0; ending = ended }
unfolding recv_loop
recv_loop-results [] last rest h = recv_loop-interruptions last (bytes [] ∷ rest)
recv_loop-results (p ∷ parts) last rest (h, hs) =
    recv_loop-interruptions p.0 (bytes p.1 ∷ results_of parts last rest)
    ∙ recv_loop-part p.1 (results_of parts last rest) h
    ∙ ap (after (print_recvd_data p.1 bufsize)) (recv_loop-results parts last rest hs)
    ∙ ap (λ l. session l ended)
        (sym
          (append_assoc (print_recvd_data p.1 bufsize) (shown parts) (codes "recv() returned 0\n")))

close_loop-closes :
    (n calls : ℕ) (rest : List Closed)
    → close_loop calls (closes_after n closed rest) ≡ (suc (calls + n), true)
unfolding close_loop
close_loop-closes zero calls rest = ap (λ k. (suc k, true)) (omega arith)
close_loop-closes (suc n) calls rest =
    close_loop-closes n (suc calls) rest ∙ ap (λ k. (suc k, true)) (omega arith)

-- A client that sends some parts, which are not empty, and then closes its connection is shown part
-- by part, in the order in which they came, whatever interruptions are between them; and the
-- program then calls `close` on its socket once more than it is interrupted, and goes on.
pub serve_client-shown :
    (parts : List (ℕ × Bytes)) (last : ℕ) (rest : List Received) (n : ℕ) (closes : List Closed)
    → All (λ p. 0 < length p.1) parts
    → serve_client (results_of parts last rest) (closes_after n closed closes) ≡ record {
      output =
          codes "recv()ing data:\n"
          ++ ((shown parts ++ codes "recv() returned 0\n")
              ++ codes "Finished recv()\nclose()d the socket\n");
      closes = n + 1;
      ending = ended;
    }
unfolding serve_client end_client close_client
serve_client-shown parts last rest n closes h =
    ap
      (λ s.
        after (codes "recv()ing data:\n")
          (after s.output (end_client (closes_after n closed closes) s.ending)))
      (recv_loop-results parts last rest h)
    ∙ ap
        (λ o. after (codes "recv()ing data:\n") (
          after (shown parts ++ codes "recv() returned 0\n")
            (after (codes "Finished recv()\n") (close_client o))))
        (close_loop-closes n 0 closes ∙ ap (λ k. (k, true)) (omega arith))
