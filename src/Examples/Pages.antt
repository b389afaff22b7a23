-- ===== src/Examples/Pages.antt =====
-- Examples on the preview.
use nginx_admin.Common.{text, ◌≡◌, refl}
use nginx_admin.Preview.{generate_config_preview}
use nginx_admin.Examples.Samples.{parsed_site}

site_preview :
    generate_config_preview parsed_site
    ≡ text
        "server {\n    listen 80;\n    server_name api.example.com;\n    root /var/www;\n\n    client_max_body_size 1m;\n    keepalive_timeout 65s;\n\n    location /api {\n        proxy_pass http://localhost:3000;\n    }\n\n}\n"
unfolding generate_config_preview
site_preview = refl
