-- ===== src/Http/Mime.antt =====
-- examples/http/server.cpp: the file formats and their types.
use ladder.Prelude.{ℕ, List, [], ◌∷◌}
use ladder.Prelude.Text.{codes}

abbrev pub file_format_jpg : ℕ
file_format_jpg = 0

abbrev pub file_format_png : ℕ
file_format_png = 1

abbrev pub file_format_ico : ℕ
file_format_ico = 2

abbrev pub file_format_gif : ℕ
file_format_gif = 3

abbrev pub file_format_tif : ℕ
file_format_tif = 4

abbrev pub file_format_pdf : ℕ
file_format_pdf = 5

abbrev pub file_format_epub : ℕ
file_format_epub = 6

abbrev pub file_format_mp3 : ℕ
file_format_mp3 = 7

abbrev pub file_format_mp4 : ℕ
file_format_mp4 = 8

abbrev pub file_format_avi : ℕ
file_format_avi = 9

abbrev pub file_format_zip : ℕ
file_format_zip = 10

abbrev pub file_format_compressible : ℕ
file_format_compressible = 11

abbrev pub file_format_html : ℕ
file_format_html = 12

abbrev pub file_format_js : ℕ
file_format_js = 13

abbrev pub file_format_css : ℕ
file_format_css = 14

abbrev pub file_format_svg : ℕ
file_format_svg = 15

abbrev pub file_format_xml : ℕ
file_format_xml = 16

abbrev pub file_format_text : ℕ
file_format_text = 17

abbrev pub file_format_json : ℕ
file_format_json = 18

abbrev pub file_format_csv : ℕ
file_format_csv = 19

abbrev pub file_format_bmp : ℕ
file_format_bmp = 20

abbrev pub file_mime_type_codes : List (List ℕ × ℕ)
file_mime_type_codes =
    (codes "htm", file_format_html)
    ∷ (codes "html", file_format_html)
    ∷ (codes "ico", file_format_ico)
    ∷ (codes "js", file_format_js)
    ∷ (codes "css", file_format_css)
    ∷ (codes "csv", file_format_csv)
    ∷ (codes "txt", file_format_text)
    ∷ (codes "jpg", file_format_jpg)
    ∷ (codes "jpeg", file_format_jpg)
    ∷ (codes "json", file_format_json)
    ∷ (codes "png", file_format_png)
    ∷ (codes "tif", file_format_tif)
    ∷ (codes "tiff", file_format_tif)
    ∷ (codes "pdf", file_format_pdf)
    ∷ (codes "svg", file_format_svg)
    ∷ (codes "bmp", file_format_bmp)
    ∷ (codes "avi", file_format_avi)
    ∷ (codes "epub", file_format_epub)
    ∷ (codes "gif", file_format_gif)
    ∷ (codes "mp3", file_format_mp3)
    ∷ (codes "mp4", file_format_mp4)
    ∷ (codes "xml", file_format_xml)
    ∷ (codes "zip", file_format_zip)
    ∷ []

abbrev pub file_mime_types : List (ℕ × List ℕ)
file_mime_types =
    (file_format_html, codes "text/html; charset=utf-8")
    ∷ (file_format_ico, codes "image/vnd.microsoft.icon")
    ∷ (file_format_js, codes "text/javascript; charset=utf-8")
    ∷ (file_format_css, codes "text/css")
    ∷ (file_format_csv, codes "text/csv; charset=utf-8")
    ∷ (file_format_text, codes "text/plain; charset=utf-8")
    ∷ (file_format_jpg, codes "image/jpeg")
    ∷ (file_format_json, codes "application/json; charset=utf-8")
    ∷ (file_format_png, codes "image/png")
    ∷ (file_format_tif, codes "image/tiff")
    ∷ (file_format_pdf, codes "application/pdf")
    ∷ (file_format_svg, codes "image/svg+xml; charset=utf-8")
    ∷ (file_format_bmp, codes "image/bmp")
    ∷ (file_format_avi, codes "video/x-msvideo")
    ∷ (file_format_epub, codes "application/epub+zip")
    ∷ (file_format_gif, codes "image/gif")
    ∷ (file_format_mp3, codes "audio/mpeg")
    ∷ (file_format_mp4, codes "video")
    ∷ (file_format_xml, codes "application/xml; charset=utf-8")
    ∷ []
