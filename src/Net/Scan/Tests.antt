-- ===== src/Net/Scan/Tests.antt =====
-- A scan.
use vakt_os.Base.{
  ◌≡◌, refl, [], ◌∷◌, map, All, Text, text, nat_beq, split, lines, trim, digits_below,
}
use vakt_os.Net.Scan.{
  pos, negsuc, parse_results, parse_rows, parse_row, parse_i32, security_from, render,
}
use vakt_os.Net.Scan.Published.{IsListed, fields, parse_results-render}

abbrev table : Text
table =
    text
      "bssid / frequency / signal level / flags / ssid\n02:00:00:00:00:00\t2412\t-30\t[WPA2-PSK-CCMP][ESS]\tVaktTest\n02:00:00:00:01:00\t5180\t-56\t[WPA2-SAE-CCMP][ESS]\tStykezone\tA\n02:00:00:00:02:00\t2437\t-71\t[ESS]\t\n"

test_results : parse_results table ≡ (
    record { ssid = text "VaktTest"; signal = negsuc 29; freq = pos 2412; security = text "WPA2" }
    ∷ record {
      ssid = text "Stykezone";
      signal = negsuc 55;
      freq = pos 5180;
      security = text "WPA3";
    }
    ∷ [])
unfolding parse_results parse_rows parse_row parse_i32 security_from lines split trim digits_below
test_results = refl

parse_results-render_example :
    All IsListed (parse_results table)
    × (map (split (λ c. nat_beq c b'\t')) (lines (render (parse_results table)))
        ≡ map fields (parse_results table))
parse_results-render_example = parse_results-render table
