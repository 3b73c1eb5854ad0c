-- ===== src/Dns/Main.antt =====
-- network/dns/async_dns_client.cpp: the table of names, the callback that prints, and main.
use Prim.Native.Char.{code}
use Prim.Native.String.{String}
use cpp_example.Common.{ℕ, Bool, true, Option, none, some, List, [], ◌∷◌, ◌++◌, map}
use cpp_example.Common.Outcome.{Outcome, done, ◌>>=◌}
use cpp_example.Dns.Response.{Item}
use cpp_example.Dns.Async.{
  Client, CommitReplies, Committed, exited, returned, dns_async_client_commit, running,
  dns_async_client_init,
}

abbrev pub codes : String → List ℕ
codes String.[] = []
codes (String.◌∷◌ c s) = code c ∷ codes s

abbrev pub domain : List String
domain =
    "www.baidu.com" ∷ "tieba.baidu.com" ∷ "news.baidu.com" ∷ "zhidao.baidu.com" ∷ "music.baidu.com"
    ∷ "image.baidu.com" ∷ "v.baidu.com" ∷ "map.baidu.com" ∷ "baijiahao.baidu.com"
    ∷ "xueshu.baidu.com" ∷ "cloud.baidu.com" ∷ "www.163.com" ∷ "open.163.com" ∷ "auto.163.com"
    ∷ "gov.163.com" ∷ "money.163.com" ∷ "sports.163.com" ∷ "tech.163.com" ∷ "edu.163.com"
    ∷ "www.taobao.com" ∷ "q.taobao.com" ∷ "sf.taobao.com" ∷ "yun.taobao.com" ∷ "baoxian.taobao.com"
    ∷ "www.tmall.com" ∷ "suning.tmall.com" ∷ "www.tencent.com" ∷ "www.qq.com" ∷ "www.aliyun.com"
    ∷ "www.ctrip.com" ∷ "hotels.ctrip.com" ∷ "hotels.ctrip.com" ∷ "vacations.ctrip.com"
    ∷ "flights.ctrip.com" ∷ "trains.ctrip.com" ∷ "bus.ctrip.com" ∷ "car.ctrip.com"
    ∷ "piao.ctrip.com" ∷ "tuan.ctrip.com" ∷ "you.ctrip.com" ∷ "g.ctrip.com" ∷ "lipin.ctrip.com"
    ∷ "ct.ctrip.com" ∷ []

-- The lines that the callback prints.
pub dns_async_client_result_callback : List Item → List (List ℕ)
dns_async_client_result_callback = map (λ i. codes "name:" ++ (i.domain ++ (codes ", ip:" ++ i.ip)))

-- The loop of main: a commit for each name, with callback 0; its result is not looked at.
unfoldable pub commit_all : List (CommitReplies × List ℕ) → Client → Outcome Committed
commit_all [] c = done (returned true c)
commit_all ((r, name) ∷ more) c = do
  committed ← dns_async_client_commit r name 0 c
  elim committed [ exited ↦ done exited | returned ok c1 ↦ commit_all more c1 ]

-- main of async_dns_client.cpp up to getchar(); `none` is the result -2.
unfoldable pub async_main :
    Option ℕ → Bool → Bool → List (CommitReplies × List ℕ) → Outcome (Option Committed)
async_main epoll context thread commits = elim (dns_async_client_init epoll context thread) [
  | running fd c ↦ commit_all commits c >>= λ r. done (some r)
  | _ ↦ done none
]
